-- ===== src/Router/Input.antt =====
-- The way of a packet from an interface to the queue of another (worker.c): `l2_input`, the firewall,
-- `router_ip_route`, `router_ip_output`, and `router_if_input` over a burst.
use trusted_gateway.Prelude.{
  ℕ, zero, suc, ◌+◌, ◌-◌, ◌%◌, ◌^◌, Bool, true, false, not, List, [], ◌∷◌, ◌++◌, Option, none, some,
  Outcome, ok, panic, bad_argument, ◌>>=◌, if◌then◌else◌, ◌==◌, ltb, leb, bit_and, bit_or,
}
use trusted_gateway.Router.Net.{
  RouteInfo, Pkt, Verdict, passed, refused, eaten, Outside, Iface, Net, ifnet_dev_count,
  ifnet_getbyidx, free_pkt, menqueue,
}
use trusted_gateway.Router.Resolve.{ether_arp, ether_ipv4, pktq_prepare_enqueue}
use trusted_gateway.Router.Arp.{arp_input}

-- The bits of `egr_idx`, of 8 bits, and the part of the array of each interface.
pub record Batch : Type 0 where
  pub egr_idx : ℕ
  pub arrays : ℕ → List ℕ

abbrev pub add_to : (ℕ → List ℕ) → ℕ → ℕ → ℕ → List ℕ
add_to f i id j = if j == i then f j ++ (id ∷ []) else f j

abbrev pub collect : ℕ → ℕ → Batch → Batch
collect out_if_idx id b = record {
  egr_idx = bit_or b.egr_idx (2 ^ out_if_idx) % 256;
  arrays = add_to b.arrays out_if_idx id;
}

abbrev pub collected : Option Pkt → Batch → Batch
collected none b = b
collected (some m) b = collect m.out_if_idx m.id b

module _ {M : Type 0} (out : Outside M) where
  -- The packet, or `none` if it was consumed or dropped.
  abbrev pub on_verdict : ℕ → Verdict → Net M → Option Pkt × Net M
  on_verdict id (passed m) s = (some m, s)
  on_verdict id (refused m) s = (none, free_pkt id s)
  on_verdict id eaten s = (none, record s { consumed = id ∷ s.consumed })

  unfoldable pub firewall_process : ℕ → Bool → Pkt → Net M → Option Pkt × Net M
  firewall_process if_idx incoming m s =
      on_verdict m.id (out.npfk_packet_handler if_idx incoming m) s

  -- The IPv4 packet without its Ethernet header.
  abbrev pub stripped : Pkt → Pkt
  stripped m = record m {
    saved_type = m.ether_type;
    is_ipv4 = true;
    data_off = m.data_off + 14;
    data_len = m.data_len - 14;
    need_l2 = true;
  }

  unfoldable pub l2_input : ℕ → Pkt → Net M → Outcome (Option Pkt × Net M)
  unfolding arp_input
  l2_input in_idx m s =
      if not m.has_l2
      then panic bad_argument
      else (if m.ether_type == ether_arp
          then ok (none, (arp_input out in_idx (record m { saved_type = m.ether_type }) s).1)
          else (if m.ether_type == ether_ipv4
              then (if ltb m.data_len 14 then panic bad_argument else ok (some (stripped m), s))
              else ok (none, free_pkt m.id s)))

  -- The route with the destination as next hop, if it has none.
  abbrev pub with_hop : Pkt → RouteInfo → Pkt
  with_hop m rt = record m {
    route = (if rt.addr_len == 0 then record rt { next_hop = m.ip_dst; addr_len = 4 } else rt);
  }

  abbrev pub routed : Pkt → Option RouteInfo → Option Pkt
  routed m none = none
  routed m (some rt) = some (with_hop m rt)

  -- `router_ip_route`, without the check of BSTGW_NON_NPF_ANTI_IP_SPOOFING, which is not compiled in.
  unfoldable pub router_ip_route : Pkt → Option Pkt
  router_ip_route m =
      if m.is_ipv4
      then (if leb m.ip_ttl 1 then none else routed m (out.lpm_lookup m.ip_dst))
      else none

  abbrev pub or_free : ℕ → Option Pkt × Net M → Option Pkt × Net M
  or_free id (none, s) = (none, free_pkt id s)
  or_free id (some m, s) = (some m, s)

  abbrev pub prepared : ℕ → ℕ → Option Pkt × Net M → Outcome (Option Pkt × Net M)
  prepared in_idx out_if_idx (none, s) = ok (none, s)
  prepared in_idx out_if_idx (some m, s) =
      pktq_prepare_enqueue out in_idx out_if_idx m s >>= λ r. ok (or_free m.id r)

  abbrev pub output_to : Option (Iface M) → ℕ → ℕ → Pkt → Net M → Outcome (Option Pkt × Net M)
  output_to none in_idx out_if_idx m s = ok (none, free_pkt m.id s)
  output_to (some ifp) in_idx out_if_idx m s =
      prepared in_idx out_if_idx (firewall_process out_if_idx false m s)

  unfoldable pub router_ip_output : ℕ → ℕ → Pkt → Net M → Outcome (Option Pkt × Net M)
  unfolding firewall_process pktq_prepare_enqueue
  router_ip_output in_idx out_if_idx m s =
      output_to (ifnet_getbyidx s out_if_idx) in_idx out_if_idx m s

  -- The body of the first loop of `router_if_input`: the packet that is to be enqueued.
  abbrev pub route_on : ℕ → ℕ → Option Pkt → Net M → Outcome (Option Pkt × Net M)
  route_on in_idx id none s = ok (none, free_pkt id s)
  route_on in_idx id (some m) s = router_ip_output in_idx m.route.if_idx m s

  abbrev pub after_firewall : ℕ → Option Pkt × Net M → Outcome (Option Pkt × Net M)
  after_firewall in_idx (none, s) = ok (none, s)
  after_firewall in_idx (some m, s) = route_on in_idx m.id (router_ip_route m) s

  abbrev pub after_l2 : ℕ → Option Pkt × Net M → Outcome (Option Pkt × Net M)
  after_l2 in_idx (none, s) = ok (none, s)
  after_l2 in_idx (some m, s) = after_firewall in_idx (firewall_process in_idx true m s)

  unfoldable pub process_packet : ℕ → Pkt → Net M → Outcome (Option Pkt × Net M)
  unfolding l2_input firewall_process router_ip_route router_ip_output
  process_packet in_idx m s = l2_input in_idx m s >>= after_l2 in_idx

  unfoldable pub route_all : ℕ → List Pkt → Batch → Net M → Outcome (Batch × Net M)
  unfolding process_packet
  route_all in_idx [] b s = ok (b, s)
  route_all in_idx (m ∷ ms) b s =
      process_packet in_idx m s >>= λ (r, s'). route_all in_idx ms (collected r b) s'

  -- The second loop, over the interfaces from `j` on.
  unfoldable pub enqueue_all : ℕ → Batch → ℕ → ℕ → Net M → Net M
  unfolding menqueue
  enqueue_all in_idx b zero j s = s
  enqueue_all in_idx b (suc left) j s =
      enqueue_all in_idx b left (j + 1)
        (if bit_and b.egr_idx (2 ^ j) == 0 then s else (menqueue in_idx j (b.arrays j) s).1)

  abbrev pub free_all : List Pkt → Net M → Net M
  free_all [] s = s
  free_all (m ∷ ms) s = free_all ms (free_pkt m.id s)

  -- `router_if_input`; `allocated` says whether `malloc` has both arrays.
  unfoldable pub router_if_input : Bool → ℕ → List Pkt → Net M → Outcome (Net M)
  unfolding route_all enqueue_all
  router_if_input allocated in_idx pkts s =
      if allocated
      then (route_all in_idx pkts (record { egr_idx = 0; arrays = λ j. [] }) s >>= λ (b, s').
          ok (enqueue_all in_idx b (ifnet_dev_count s) 1 s'))
      else ok (free_all pkts s)
