-- ===== src/Router/Answers.antt =====
-- What an ARP packet changes, and what a forwarded packet looks like.
use trusted_gateway.Prelude.{
  ℕ, ◌+◌, ◌-◌, ◌≤◌, ◌<◌, ◌≡◌, ◌≢◌, ◌⊎◌, inl, inr, refl, ap, subst, sym, ◌∙◌, Bool, true, false, not,
  ◌&&◌, ◌||◌, none, some, ok, ◌>>=◌, arith, ◌==◌, ==→eq, some_inj, ltb, leb, if◌then◌else◌,
  Bool-cases, Option-cases,
}
use trusted_gateway.Router.Net.{RouteInfo, Arp, Pkt, passed, Outside, Iface, Net, ifnet_getbyidx}
use trusted_gateway.Router.Resolve.{
  ether_arp, ether_ipv4, cache_entry, arp_cache, arp_cache_lookup, arp_resolve, router_if_output,
  pktq_prepare_enqueue,
}
use trusted_gateway.Router.Arp.{
  has_ip, header_ok, arp_is_interesting, reply, answered, arp_answer, arp_input,
}
use trusted_gateway.Router.Input.{
  on_verdict, after_l2, after_firewall, route_on, firewall_process, stripped, l2_input, with_hop,
  router_ip_route, router_ip_output, process_packet,
}

-- A map keeps what is put under a key, and what is under the others.
pub record IsMap {M : Type 0} (out : Outside M) : Type 0 where
  pub get-put_self :
      (m : M) (k v : ℕ) → out.thmap_get m k ≡ none → out.thmap_get (out.thmap_put m k v) k ≡ some v
  pub get-put_ne :
      (m : M) (k j v : ℕ) → k ≢ j → out.thmap_get (out.thmap_put m k v) j ≡ out.thmap_get m j

module _ {M : Type 0} (out : Outside M) where
  -- One call of `arp_cache` keeps the addresses that are known.
  pub arp_cache-Extends :
      (ifp : Iface M) (ipaddr hwaddr : ℕ) (allow_new : Bool) (a : ℕ)
      → IsMap out
      → let new = arp_cache_lookup out (arp_cache out ifp ipaddr hwaddr allow_new) a in
        (new ≡ arp_cache_lookup out ifp a)
        ⊎ ((arp_cache_lookup out ifp a ≡ none)
            × (a ≡ ipaddr)
            × (allow_new ≡ true)
            × (new ≡ some hwaddr))
  unfolding arp_cache arp_cache_lookup cache_entry
  arp_cache-Extends ifp ipaddr hwaddr allow_new a law =
      elim (Option-cases (out.thmap_get ifp.arp_cache ipaddr)) [
        | inr (hw, e) ↦ rw e (inl refl)
        | inl e ↦ elim (Bool-cases (not allow_new || not out.malloc_ok)) [
          | inl b ↦ rw (e, b) (inl refl)
          | inr b ↦ elim (Bool-cases (ipaddr == a)) [
            | inl i ↦
                let same : ipaddr ≡ a = ==→eq ipaddr a i in
                rw (e, b)
                  (inr (
                    ap (out.thmap_get ifp.arp_cache) (sym same) ∙ e,
                    sym same,
                    ground (arith, b),
                    ap (out.thmap_get (out.thmap_put ifp.arp_cache ipaddr hwaddr)) (sym same)
                        ∙ law.get-put_self ifp.arp_cache ipaddr hwaddr e,
                  ))
            | inr i ↦
                rw (e, b) (inl (law.get-put_ne ifp.arp_cache ipaddr a hwaddr (ground (arith, i))))
          ]
        ]
      ]

  -- What a reply says, and to which requests there is one.
  abbrev pub RepliesTo : Iface M → Pkt → Pkt → Type 0
  RepliesTo ifp m r =
      (m.arp.arp_opcode ≡ 1)
      × (ifp.link.is_external ≡ true → has_ip ifp.ips m.arp.arp_tip ≡ true)
      × (r.id ≡ m.id)
      × (r.arp.arp_opcode ≡ 2)
      × ((r.arp.arp_sip ≡ m.arp.arp_tip) × (r.arp.arp_sha ≡ ifp.hwaddr))
      × ((r.arp.arp_tip ≡ m.arp.arp_sip) × (r.arp.arp_tha ≡ m.arp.arp_sha))
      × ((r.d_addr ≡ m.s_addr) × (r.s_addr ≡ ifp.hwaddr))

  answered-some :
      (m : ℕ) (r r' : Pkt) (e : Bool × Net M) → (answered out m r e).0 ≡ some r' → r ≡ r'
  answered-some m r r' (true, s) e = some_inj e
  answered-some m r r' (false, s) e = absurd (cc)

  answer_inv :
      (in_idx : ℕ) (ifp : Iface M) (targeted : Bool) (m r : Pkt) (s : Net M)
      → (arp_answer out in_idx ifp targeted m s).0 ≡ some r
      → (targeted ≡ true) × (m.arp.arp_opcode ≡ 1) × (reply ifp m ≡ r)
  unfolding arp_answer
  answer_inv in_idx ifp targeted m r s h = elim (Bool-cases (targeted && (m.arp.arp_opcode == 1))) [
    | inl t ↦
        (ground (arith, t), ground (arith, t), answered-some m.id (reply ifp m) r _ (rw t at h))
    | inr t ↦ absurd (cc (rw t at h))
  ]

  interest_external :
      (a : Arp) (ifp : Iface M)
      → arp_is_interesting a ifp ≡ some true
      → ifp.link.is_external ≡ true
      → has_ip ifp.ips a.arp_tip ≡ true
  unfolding arp_is_interesting
  interest_external a ifp e x = ground arith

  -- `arp_input` answers a packet only if it came in on an interface that the router knows, and is a
  -- request, on an external interface one for an address of that interface. The reply gives the
  -- requested address the interface's hardware address, and goes back to the sender.
  pub arp_input-RepliesTo :
      (in_idx : ℕ) (m r : Pkt) (s : Net M)
      → (arp_input out in_idx m s).0 ≡ some r
      → (ifp : Iface M) × (ifnet_getbyidx s in_idx ≡ some ifp) × RepliesTo ifp m r
  unfolding arp_input
  arp_input-RepliesTo in_idx m r s h = elim (Option-cases (ifnet_getbyidx s in_idx)) [
    | inl e ↦ absurd (cc (rw e at h))
    | inr (ifp, e) ↦ elim (Bool-cases (header_ok m.arp)) [
      | inl k ↦ elim (Option-cases (arp_is_interesting m.arp ifp)) [
        | inl i ↦ absurd (cc (rw (e, k, i) at h))
        | inr (targeted, i) ↦
            let (t, op, same) = answer_inv in_idx ifp targeted m r s (rw (e, k, i) at h) in
            (
              ifp,
              e,
              subst (RepliesTo ifp m) same (
                op,
                interest_external m.arp ifp (i ∙ ap some t),
                refl,
                refl,
                (refl, refl),
                (refl, refl),
                (refl, refl),
              ),
            )
      ]
      | inr k ↦ absurd (cc (rw (e, k) at h))
    ]
  ]

  -- A firewall that lets every packet pass as it is.
  abbrev pub PassesAll : Type 0
  PassesAll = (i : ℕ) (b : Bool) (m : Pkt) → out.npfk_packet_handler i b m ≡ passed m

  abbrev pub hop_of : Pkt → RouteInfo → ℕ
  hop_of m rt = if rt.addr_len == 0 then m.ip_dst else rt.next_hop

  l2_lem :
      (in_idx : ℕ) (m : Pkt) (s : Net M)
      → m.has_l2 ≡ true
      → m.ether_type ≡ ether_ipv4
      → 14 ≤ m.data_len
      → l2_input out in_idx m s ≡ ok (some (stripped out m), s)
  unfolding l2_input
  l2_lem in_idx m s l2 ty long = elim (Bool-cases (m.ether_type == ether_arp)) [
    | inl a ↦ absurd (ground (arith, ty, a))
    | inr a ↦ simp (ap not l2, a, is_ip, enough) refl
  ]
    where
      is_ip : (m.ether_type == ether_ipv4) ≡ true
      is_ip = ground (arith, ty)

      enough : ltb m.data_len 14 ≡ false
      enough = ground (arith, long)

  firewall_lem :
      (i : ℕ) (b : Bool) (m : Pkt) (s : Net M)
      → PassesAll
      → firewall_process out i b m s ≡ (some m, s)
  unfolding firewall_process
  firewall_lem i b m s pass = ap (λ v. on_verdict out m.id v s) (pass i b m)

  route_lem :
      (m : Pkt) (rt : RouteInfo)
      → m.is_ipv4 ≡ true
      → 1 < m.ip_ttl
      → out.lpm_lookup m.ip_dst ≡ some rt
      → router_ip_route out m ≡ some (with_hop out m rt)
  unfolding router_ip_route
  route_lem m rt v4 ttl lookup = simp (v4, lives, lookup) refl
    where
      lives : leb m.ip_ttl 1 ≡ false
      lives = ground (arith, ttl)

  hop_if : (m : Pkt) (rt : RouteInfo) → (with_hop out m rt).route.if_idx ≡ rt.if_idx
  hop_if m rt = elim (Bool-cases (rt.addr_len == 0)) [ inl e ↦ simp e refl | inr e ↦ simp e refl ]

  hop_next : (m : Pkt) (rt : RouteInfo) → (with_hop out m rt).route.next_hop ≡ hop_of m rt
  hop_next m rt = elim (Bool-cases (rt.addr_len == 0)) [ inl e ↦ simp e refl | inr e ↦ simp e refl ]

  -- The packet with its new Ethernet header.
  abbrev headed_to : ℕ → ℕ → Pkt → Pkt
  headed_to src hw n = record n {
    data_off = n.data_off - 14;
    data_len = n.data_len + 14;
    s_addr = src;
    d_addr = hw;
    ether_type = n.saved_type;
    out_if_idx = n.route.if_idx;
  }

  output_lem :
      (in_idx : ℕ) (n : Pkt) (s : Net M) (ifp : Iface M) (hw : ℕ)
      → PassesAll
      → n.need_l2 ≡ true
      → 14 ≤ n.data_off
      → ifnet_getbyidx s n.route.if_idx ≡ some ifp
      → arp_cache_lookup out ifp n.route.next_hop ≡ some hw
      → router_ip_output out in_idx n.route.if_idx n s ≡ ok (some (headed_to ifp.hwaddr hw n), s)
  unfolding router_ip_output pktq_prepare_enqueue router_if_output arp_resolve
  output_lem in_idx n s ifp hw pass need room known cached =
      simp (known, pass n.route.if_idx false n, ap not need, enough, cached) refl
    where
      enough : ltb n.data_off 14 ≡ false
      enough = ground (arith, room)

  -- An IPv4 packet with a time to live of more than 1, a route to an interface that the router knows,
  -- and a next hop in that interface's ARP cache: it gets through, if the firewall lets it pass, with
  -- no change of the router's state. Its frame begins where it began and is as long; the hardware
  -- addresses are those of the interface and of the next hop.
  pub process_packet-forwarded :
      (in_idx : ℕ) (m : Pkt) (s : Net M) (rt : RouteInfo) (ifp : Iface M) (hw : ℕ)
      → PassesAll
      → m.has_l2 ≡ true
      → m.ether_type ≡ ether_ipv4
      → 14 ≤ m.data_len
      → 1 < m.ip_ttl
      → out.lpm_lookup m.ip_dst ≡ some rt
      → ifnet_getbyidx s rt.if_idx ≡ some ifp
      → arp_cache_lookup out ifp (hop_of m rt) ≡ some hw
      → (m' : Pkt) × (process_packet out in_idx m s ≡ ok (some m', s))
        × (m'.out_if_idx ≡ rt.if_idx)
        × ((m'.s_addr ≡ ifp.hwaddr) × (m'.d_addr ≡ hw) × (m'.ether_type ≡ m.ether_type))
        × ((m'.id ≡ m.id) × (m'.data_off ≡ m.data_off) × (m'.data_len ≡ m.data_len))
        × ((m'.ip_src ≡ m.ip_src) × (m'.ip_dst ≡ m.ip_dst) × (m'.ip_ttl ≡ m.ip_ttl))
  unfolding process_packet
  process_packet-forwarded in_idx m s rt ifp hw pass l2 ty long ttl lookup known cached =
      let n = with_hop out (stripped out m) rt in
      let to = hop_if (stripped out m) rt in
      (
        headed_to ifp.hwaddr hw n,
        ap (λ o. o >>= after_l2 out in_idx) (l2_lem in_idx m s l2 ty long)
            ∙ ap (after_firewall out in_idx) (firewall_lem in_idx true (stripped out m) s pass)
            ∙ ap (λ r. route_on out in_idx m.id r s) (route_lem (stripped out m) rt refl ttl lookup)
            ∙ output_lem in_idx n s ifp hw pass refl (omega arith)
                (ap (ifnet_getbyidx s) to ∙ known)
                (ap (arp_cache_lookup out ifp) (hop_next (stripped out m) rt) ∙ cached),
        to,
        (refl, refl, refl),
        (refl, omega arith, omega arith),
        (refl, refl, refl),
      )
