-- ===== src/Router/Arp.antt =====
-- `arp_input`: an ARP packet that came in (arp.c).
use trusted_gateway.Prelude.{
  ℕ, Bool, true, false, not, ◌&&◌, ◌||◌, List, [], ◌∷◌, Option, none, some, if◌then◌else◌, ◌==◌,
}
use trusted_gateway.Router.Net.{Arp, Pkt, Outside, Iface, Net, ifnet_getbyidx, free_pkt, put_iface}
use trusted_gateway.Router.Resolve.{broadcast, arp_cache, pktq_enqueue}

abbrev pub has_ip : List ℕ → ℕ → Bool
has_ip [] a = false
has_ip (b ∷ bs) a = (b == a) || has_ip bs a

-- The checks of the header's constants.
abbrev pub header_ok : Arp → Bool
header_ok a = (a.arp_hardware == 1) && ((a.arp_hlen == 6) && (a.arp_plen == 4))

module _ {M : Type 0} where
  -- `arp_is_interesting`: `none`, or whether the packet is targeted at the interface. The untrusted
  -- world's interface is the one that is not external.
  unfoldable pub arp_is_interesting : Arp → Iface M → Option Bool
  arp_is_interesting a ifp =
      let untrusted = not ifp.link.is_external in
      let ucast = ifp.hwaddr == a.arp_tha in
      let bcast = (a.arp_tha == broadcast) || (a.arp_tha == 0) in
      if ucast || (bcast || untrusted)
      then some (if untrusted then true else has_ip ifp.ips a.arp_tip)
      else none

  -- The reply in the request's buffer.
  unfoldable pub reply : Iface M → Pkt → Pkt
  reply ifp m = record m {
    arp = record m.arp {
      arp_opcode = 2;
      arp_tha = m.arp.arp_sha;
      arp_tip = m.arp.arp_sip;
      arp_sha = ifp.hwaddr;
      arp_sip = m.arp.arp_tip;
    };
    d_addr = m.s_addr;
    s_addr = ifp.hwaddr;
  }

module _ {M : Type 0} (out : Outside M) where
  -- The reply, or the packet dropped if it could not be enqueued.
  abbrev pub answered : ℕ → Pkt → Bool × Net M → Option Pkt × Net M
  answered m r (true, s) = (some r, s)
  answered m r (false, s) = (none, free_pkt m s)

  -- The cache entry and the reply, of a packet that is interesting. The result is the reply, if it
  -- was sent; the packet is consumed in any case.
  unfoldable pub arp_answer : ℕ → Iface M → Bool → Pkt → Net M → Option Pkt × Net M
  unfolding reply
  arp_answer in_idx ifp targeted m s =
      let s' = put_iface in_idx (arp_cache out ifp m.arp.arp_sip m.arp.arp_sha targeted) s in
      let r = reply ifp m in
      if targeted && (m.arp.arp_opcode == 1)
      then answered m.id r (pktq_enqueue out in_idx ifp.link.ifnet_idx r.id s')
      else (none, free_pkt m.id s')

  abbrev pub on_interest : Option Bool → ℕ → Iface M → Pkt → Net M → Option Pkt × Net M
  on_interest none in_idx ifp m s = (none, free_pkt m.id s)
  on_interest (some targeted) in_idx ifp m s = arp_answer in_idx ifp targeted m s

  -- `worker->net_if`, which is not NULL.
  abbrev pub on_iface : Option (Iface M) → ℕ → Pkt → Net M → Option Pkt × Net M
  on_iface none in_idx m s = (none, free_pkt m.id s)
  on_iface (some ifp) in_idx m s =
      if header_ok m.arp
      then on_interest (arp_is_interesting m.arp ifp) in_idx ifp m s
      else (none, free_pkt m.id s)

  unfoldable pub arp_input : ℕ → Pkt → Net M → Option Pkt × Net M
  unfolding arp_answer arp_is_interesting
  arp_input in_idx m s = on_iface (ifnet_getbyidx s in_idx) in_idx m s
