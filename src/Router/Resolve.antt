-- ===== src/Router/Resolve.antt =====
-- The ARP cache, ARP requests, and the resolution of a packet's next hop (arp.c), with the functions
-- of worker.c that put a packet with its Ethernet header into a queue.
use trusted_gateway.Prelude.{
  ℕ, ◌+◌, ◌-◌, Bool, true, false, not, ◌||◌, [], ◌∷◌, Option, none, some, Outcome, ok, panic,
  bad_argument, ◌>>=◌, if◌then◌else◌, ltb, leb, length, get_or,
}
use trusted_gateway.Router.Net.{RouteInfo, Pkt, Outside, Iface, Net, ifnet_getbyidx, menqueue}

abbrev pub broadcast : ℕ
broadcast = 0xffffffffffff

abbrev pub ether_arp : ℕ
ether_arp = 0x0806

abbrev pub ether_ipv4 : ℕ
ether_ipv4 = 0x0800

module _ {M : Type 0} (out : Outside M) where
  -- `arp_cache` on a known address changes nothing; a new one is added if that is allowed.
  unfoldable pub cache_entry : Option ℕ → M → ℕ → ℕ → Bool → M
  cache_entry (some hw) m ipaddr hwaddr allow_new = m
  cache_entry none m ipaddr hwaddr allow_new =
      if not allow_new || not out.malloc_ok then m else out.thmap_put m ipaddr hwaddr

  unfoldable pub arp_cache : Iface M → ℕ → ℕ → Bool → Iface M
  unfolding cache_entry
  arp_cache ifp ipaddr hwaddr allow_new = record ifp {
    arp_cache =
        cache_entry (out.thmap_get ifp.arp_cache ipaddr) ifp.arp_cache ipaddr hwaddr allow_new;
  }

  unfoldable pub arp_cache_lookup : Iface M → ℕ → Option ℕ
  arp_cache_lookup ifp ipaddr = out.thmap_get ifp.arp_cache ipaddr

  -- The packet of `arp_request` in the buffer `m`. The flags of a buffer from the pool are 0; the
  -- fields of other protocols are left over, and nothing reads them.
  unfoldable pub arp_request : ℕ → ℕ → ℕ → ℕ → Pkt
  arp_request m src_hwaddr src_addr target = record {
    id = m;
    data_off = 0;
    data_len = 42;
    has_l2 = false;
    is_ipv4 = false;
    is_ipv6 = false;
    d_addr = broadcast;
    s_addr = src_hwaddr;
    ether_type = ether_arp;
    arp = record {
      arp_hardware = 1;
      arp_hlen = 6;
      arp_plen = 4;
      arp_opcode = 1;
      arp_sha = src_hwaddr;
      arp_sip = src_addr;
      arp_tha = broadcast;
      arp_tip = target;
    };
    ip_src = 0;
    ip_dst = 0;
    ip_ttl = 0;
    need_l2 = false;
    saved_type = 0;
    route = record { if_idx = 0; addr_len = 0; next_hop = 0; if_addr_idx = 0 };
    out_if_idx = 0;
  }

  abbrev pub is_enqueued : Option ℕ × Net M → Bool × Net M
  is_enqueued (none, s) = (false, s)
  is_enqueued (some n, s) = (true, s)

  -- `pktq_enqueue` of a packet that has its Ethernet header, as a request and a reply do, so that
  -- `router_if_output` has nothing to do. The answer is whether it is 0.
  unfoldable pub pktq_enqueue : ℕ → ℕ → ℕ → Net M → Bool × Net M
  unfolding menqueue
  pktq_enqueue in_idx out_if_idx m s = is_enqueued (menqueue in_idx out_if_idx (m ∷ []) s)

  -- The request on an interface that does not know the address. The code waits for no answer.
  unfoldable pub send_request : Iface M → ℕ → RouteInfo → Net M → Outcome (Net M)
  unfolding arp_request pktq_enqueue
  send_request ifp in_idx rt s =
      let m = out.new_buf (length s.got) in
      let req = arp_request m ifp.hwaddr (get_or ifp.ips rt.if_addr_idx 0) rt.next_hop in
      if leb (length ifp.ips) rt.if_addr_idx
      then panic bad_argument
      else ok (pktq_enqueue in_idx rt.if_idx req.id (record s { got = m ∷ s.got })).1

  abbrev pub or_request : Option ℕ → Iface M → ℕ → RouteInfo → Net M → Outcome (Option ℕ × Net M)
  or_request (some hwaddr) ifp in_idx rt s = ok (some hwaddr, s)
  or_request none ifp in_idx rt s = send_request ifp in_idx rt s >>= λ s'. ok (none, s')

  abbrev pub resolve_on : Option (Iface M) → ℕ → RouteInfo → Net M → Outcome (Option ℕ × Net M)
  resolve_on none in_idx rt s = ok (none, s)
  resolve_on (some ifp) in_idx rt s = or_request (arp_cache_lookup ifp rt.next_hop) ifp in_idx rt s

  -- The hardware address, or `none` for -1.
  unfoldable pub arp_resolve : ℕ → RouteInfo → Net M → Outcome (Option ℕ × Net M)
  unfolding send_request arp_cache_lookup
  arp_resolve in_idx rt s = resolve_on (ifnet_getbyidx s rt.if_idx) in_idx rt s

  -- The packet with the Ethernet header in front, or `none` for -1.
  abbrev pub headed : ℕ → Option ℕ → Pkt → Option Pkt
  headed src none m = none
  headed src (some hwaddr) m = some (record m {
    data_off = m.data_off - 14;
    data_len = m.data_len + 14;
    s_addr = src;
    d_addr = hwaddr;
    ether_type = m.saved_type;
  })

  unfoldable pub router_if_output : ℕ → Iface M → Pkt → Net M → Outcome (Option Pkt × Net M)
  unfolding arp_resolve
  router_if_output in_idx out_ifp m s =
      if not m.need_l2
      then ok (some m, s)
      else (if ltb m.data_off 14
          then ok (none, s)
          else (arp_resolve in_idx m.route s >>= λ (hw, s'). ok (headed out_ifp.hwaddr hw m, s')))

  -- `pktq_prepare_enqueue`
  abbrev pub sent_to : ℕ → Option Pkt × Net M → Option Pkt × Net M
  sent_to out_if_idx (none, s) = (none, s)
  sent_to out_if_idx (some m, s) = (some (record m { out_if_idx = out_if_idx }), s)

  abbrev pub output_on : Option (Iface M) → ℕ → ℕ → Pkt → Net M → Outcome (Option Pkt × Net M)
  output_on none in_idx out_if_idx m s = ok (none, s)
  output_on (some out_ifp) in_idx out_if_idx m s =
      router_if_output in_idx out_ifp m s >>= λ r. ok (sent_to out_if_idx r)

  unfoldable pub pktq_prepare_enqueue : ℕ → ℕ → Pkt → Net M → Outcome (Option Pkt × Net M)
  unfolding router_if_output
  pktq_prepare_enqueue in_idx out_if_idx m s =
      output_on (ifnet_getbyidx s out_if_idx) in_idx out_if_idx m s
