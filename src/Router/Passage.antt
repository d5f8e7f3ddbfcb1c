-- ===== src/Router/Passage.antt =====
-- Packets through a router of two interfaces, whose maps are functions.
use trusted_gateway.Prelude.{
  ℕ, ◌+◌, ◌≡◌, refl, Bool, true, false, [], ◌∷◌, Option, none, some, ok, Ensures, arith,
  if◌then◌else◌, ◌==◌,
}
use trusted_gateway.Pktq.Ops.{Pktq}
use trusted_gateway.Pktq.Contents.{IsValid}
use trusted_gateway.Router.Net.{Pkt, passed, Outside, Iface, Net, ifnet_getbyidx}
use trusted_gateway.Router.Resolve.{arp_cache_lookup, pktq_enqueue}
use trusted_gateway.Router.Arp.{arp_input}
use trusted_gateway.Router.Input.{process_packet, router_if_input}
use trusted_gateway.Router.Held.{Kept}
use trusted_gateway.Router.Process.{SameBuffer}
use trusted_gateway.Router.Conserve.{router_if_input-Kept}
use trusted_gateway.Router.Lost.{router_if_input-lost}
use trusted_gateway.Router.Answers.{IsMap, RepliesTo, arp_input-RepliesTo, process_packet-forwarded}
use trusted_gateway.Router.Learned.{Learned, arp_input-Learned}

abbrev put_in : (ℕ → Option ℕ) → ℕ → ℕ → ℕ → Option ℕ
put_in m k v j = if k == j then some v else m j

-- Every route leads to the interface `idx`.
abbrev outside_to : ℕ → Outside (ℕ → Option ℕ)
outside_to idx = record {
  thmap_get = λ m k. m k;
  thmap_put = put_in;
  lpm_lookup = λ a. some (record { if_idx = idx; addr_len = 0; next_hop = 0; if_addr_idx = 0 });
  npfk_packet_handler = λ i b m. passed m;
  new_buf = λ n. 100 + n;
  malloc_ok = true;
}

abbrev outside : Outside (ℕ → Option ℕ)
outside = outside_to 2

outside-IsMap : IsMap outside
outside-IsMap = record {
  get-put_self = λ m k v e. ground arith;
  get-put_ne = λ m k j v ne. ground (arith, ne);
}

outside-SameBuffer : SameBuffer outside
outside-SameBuffer i b m m' e = cc

abbrev empty_queue : Pktq
empty_queue = record {
  stopped = false;
  next_read = 0;
  next_write = 0;
  count = 0;
  capacity = 4;
  pkt = 0 ∷ 0 ∷ 0 ∷ 0 ∷ [];
}

empty_queue-IsValid : IsValid empty_queue
empty_queue-IsValid = record {
  slots = refl;
  some_slots = omega arith;
  read_in = omega arith;
  bounded = omega arith;
  write_at = refl;
}

-- An interface with one address, and with 9 in its cache.
abbrev iface : ℕ → Bool → Iface (ℕ → Option ℕ)
iface idx external = record {
  link = record {
    ifnet_idx = idx;
    is_external = external;
    queue = empty_queue;
    freed = [];
    notified = 0;
  };
  hwaddr = 50 + idx;
  ips = idx ∷ [];
  arp_cache = λ a. if a == 9 then some 99 else none;
}

abbrev net : Net (ℕ → Option ℕ)
net = record { ifaces = iface 1 false ∷ iface 2 true ∷ []; freed = []; consumed = []; got = [] }

-- A packet of the given type to 9, with a request for the address 2.
abbrev packet : ℕ → Pkt
packet ty = record {
  id = 10;
  data_off = 0;
  data_len = 60;
  has_l2 = true;
  is_ipv4 = false;
  is_ipv6 = false;
  d_addr = 52;
  s_addr = 77;
  ether_type = ty;
  arp = record {
    arp_hardware = 1;
    arp_hlen = 6;
    arp_plen = 4;
    arp_opcode = 1;
    arp_sha = 77;
    arp_sip = 7;
    arp_tha = 0;
    arp_tip = 2;
  };
  ip_src = 7;
  ip_dst = 9;
  ip_ttl = 64;
  need_l2 = false;
  saved_type = 0;
  route = record { if_idx = 0; addr_len = 0; next_hop = 0; if_addr_idx = 0 };
  out_if_idx = 0;
}

abbrev uplink_addr : ℕ
uplink_addr = 7

abbrev ipv4 : Pkt
ipv4 = packet 0x0800

router_if_input-Kept_example :
    Ensures (Kept (10 ∷ []) net []) (router_if_input outside true 1 (ipv4 ∷ []) net)
router_if_input-Kept_example =
    router_if_input-Kept outside true 1 (ipv4 ∷ []) net outside-SameBuffer (omega arith)
      (empty_queue-IsValid, (empty_queue-IsValid, tt))

process_packet-forwarded_example :
    (m' : Pkt) × (process_packet outside 1 ipv4 net ≡ ok (some m', net))
    × (m'.out_if_idx ≡ 2)
    × ((m'.s_addr ≡ 52) × (m'.d_addr ≡ 99) × (m'.ether_type ≡ 0x0800))
    × ((m'.id ≡ 10) × (m'.data_off ≡ 0) × (m'.data_len ≡ 60))
    × ((m'.ip_src ≡ 7) × (m'.ip_dst ≡ 9) × (m'.ip_ttl ≡ 64))
unfolding ifnet_getbyidx arp_cache_lookup
process_packet-forwarded_example =
    process_packet-forwarded outside 1 ipv4 net
      (record { if_idx = 2; addr_len = 0; next_hop = 0; if_addr_idx = 0 }) (iface 2 true) 99
      (λ i b m. refl) refl refl (omega arith) (omega arith) refl refl refl

-- The reply that the untrusted interface gives to the request.
abbrev answer : Pkt
answer = record (packet 0x0806) {
  saved_type = 0;
  arp = record (packet 0x0806).arp {
    arp_opcode = 2;
    arp_tha = 77;
    arp_tip = 7;
    arp_sha = 52;
    arp_sip = 2;
  };
  d_addr = 77;
  s_addr = 52;
}

-- The request comes in on the external interface that has the address.
arp_input-RepliesTo_example :
    (ifp : Iface (ℕ → Option ℕ)) × (ifnet_getbyidx net 2 ≡ some ifp)
    × RepliesTo outside ifp (packet 0x0806) answer
unfolding arp_input ifnet_getbyidx pktq_enqueue
arp_input-RepliesTo_example = arp_input-RepliesTo outside 2 (packet 0x0806) answer net refl

-- What the request teaches of any interface and address.
arp_input-Learned_example :
    Learned outside 2 (packet 0x0806) net (arp_input outside 2 (packet 0x0806) net).1
arp_input-Learned_example = arp_input-Learned outside 2 (packet 0x0806) net outside-IsMap

-- A packet that is routed to the eighth interface.
abbrev eighth : Outside (ℕ → Option ℕ)
eighth = outside_to 8

abbrev wide : Net (ℕ → Option ℕ)
wide = record net {
  ifaces =
      iface 1 false
      ∷ iface 2 true
      ∷ iface 3 true
      ∷ iface 4 true
      ∷ iface 5 true
      ∷ iface 6 true
      ∷ iface 7 true
      ∷ iface 8 true
      ∷ [];
}

router_if_input-lost_example : router_if_input eighth true 1 (ipv4 ∷ []) wide ≡ ok wide
unfolding ifnet_getbyidx arp_cache_lookup
router_if_input-lost_example =
    let (m', e, to, h, i, k) =
      process_packet-forwarded eighth 1 ipv4 wide
        (record { if_idx = 8; addr_len = 0; next_hop = 0; if_addr_idx = 0 }) (iface 8 true) 99
        (λ i b m. refl) refl refl (omega arith) (omega arith) refl refl refl in
    router_if_input-lost eighth 1 ipv4 m' wide wide e (omega (arith, to))
