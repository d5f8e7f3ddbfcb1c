-- ===== src/Router/Process.antt =====
-- One packet that comes in ends in a queue's batch, in the pool, or in the firewall.
use trusted_gateway.Prelude.{
  ℕ, ◌≤◌, ◌≡◌, inl, inr, refl, subst, Bool, true, false, not, [], ◌∷◌, Option, none, some, Ensures,
  Ensures-map, Ensures-weaken, arith, ◌==◌, ltb, leb, length, Bool-cases, Option-cases,
}
use trusted_gateway.Router.Net.{
  RouteInfo, Pkt, Verdict, passed, refused, eaten, Outside, Iface, Net, ifnet_getbyidx,
}
use trusted_gateway.Router.Resolve.{ether_arp, ether_ipv4, pktq_prepare_enqueue}
use trusted_gateway.Router.Input.{
  on_verdict, firewall_process, stripped, l2_input, routed, router_ip_route, or_free, prepared,
  router_ip_output, route_on, after_firewall, process_packet,
}
use trusted_gateway.Router.Held.{AllValid, Kept, Kept-refl, Kept-trans, free_pkt-Kept}
use trusted_gateway.Router.Requests.{
  Kept-frame, SameId, arp_input-Kept, PreparedFor, pktq_prepare_enqueue-PreparedFor,
}

module _ {M : Type 0} (out : Outside M) where
  -- The firewall gives the buffer back that it was given.
  abbrev pub SameBuffer : Type 0
  SameBuffer =
      (i : ℕ) (b : Bool) (m m' : Pkt) → out.npfk_packet_handler i b m ≡ passed m' → m'.id ≡ m.id

  -- The packet is still in hand or has been dealt with, and if it has an interface to leave by, the
  -- router knows it.
  abbrev pub Processed : ℕ → Net M → Option Pkt × Net M → Type 0
  Processed id s (none, s') = Kept (id ∷ []) s [] s'
  Processed id s (some m, s') =
      Kept (id ∷ []) s (id ∷ []) s'
      × (m.id ≡ id)
      × (1 ≤ m.out_if_idx)
      × (m.out_if_idx ≤ length s'.ifaces)

  abbrev Checked : ℕ → Net M → Option Pkt × Net M → Type 0
  Checked id s (none, s') = Kept (id ∷ []) s [] s'
  Checked id s (some m, s') = Kept (id ∷ []) s (id ∷ []) s' × (m.id ≡ id)

  on_verdict-Checked :
      (m : Pkt) (v : Verdict) (s : Net M)
      → ((m' : Pkt) → v ≡ passed m' → m'.id ≡ m.id)
      → AllValid s.ifaces
      → Checked m.id s (on_verdict out m.id v s)
  on_verdict-Checked m (passed m') s same v = (Kept-refl (m.id ∷ []) s v, same m' refl)
  on_verdict-Checked m (refused m') s same v = free_pkt-Kept m.id s v
  on_verdict-Checked m eaten s same v = record {
    valid = v;
    same_count = refl;
    balance = λ x. ground arith;
  }

  firewall_process-Checked :
      (i : ℕ) (b : Bool) (m : Pkt) (s : Net M)
      → SameBuffer
      → AllValid s.ifaces
      → Checked m.id s (firewall_process out i b m s)
  unfolding firewall_process
  firewall_process-Checked i b m s same v =
      on_verdict-Checked m (out.npfk_packet_handler i b m) s (same i b m) v

  abbrev Known : ℕ → Net M → Type 0
  Known idx s = (1 ≤ idx) × (idx ≤ length s.ifaces)

  getbyidx-Known :
      (s : Net M) (idx : ℕ) {ifp : Iface M} → ifnet_getbyidx s idx ≡ some ifp → Known idx s
  unfolding ifnet_getbyidx
  getbyidx-Known s idx e = ground arith

  or_free-Processed :
      (id idx : ℕ) (s : Net M) (r : Option Pkt × Net M)
      → Known idx s
      → PreparedFor out id idx s r
      → Processed id s (or_free out id r)
  or_free-Processed id idx s (none, s') known k =
      Kept-trans (Kept-frame (id ∷ []) k) (free_pkt-Kept id s' k.valid)
  or_free-Processed id idx s (some m, s') (low, high) (k, same, to) =
      (Kept-frame (id ∷ []) k, same, omega (arith, to), omega (arith, to, k.same_count))

  -- Two steps, the first of which keeps the packet in hand.
  then-Processed :
      (id : ℕ) {s s' : Net M} (r : Option Pkt × Net M)
      → Kept (id ∷ []) s (id ∷ []) s'
      → Processed id s' r
      → Processed id s r
  then-Processed id (none, s'') k p = Kept-trans k p
  then-Processed id (some m, s'') k (p, same, low, high) = (Kept-trans k p, same, low, high)

  prepared-Processed :
      (in_idx idx : ℕ) (id : ℕ) (s : Net M) (r : Option Pkt × Net M)
      → Known idx s
      → Checked id s r
      → Ensures (Processed id s) (prepared out in_idx idx r)
  prepared-Processed in_idx idx id s (none, s') known k = k
  prepared-Processed in_idx idx id s (some m, s') (low, high) (k, same) =
      Ensures-map (Processed id s) (pktq_prepare_enqueue out in_idx idx m s') _
        (pktq_prepare_enqueue-PreparedFor out in_idx idx m s' k.valid)
        (λ r p. then-Processed id (or_free out m.id r) k (
          subst (λ i. Processed i s' (or_free out m.id r)) same
            (or_free-Processed m.id idx s' r (low, omega (arith, k.same_count)) p)))

  router_ip_output-Processed :
      (in_idx idx : ℕ) (m : Pkt) (s : Net M)
      → SameBuffer
      → AllValid s.ifaces
      → Ensures (Processed m.id s) (router_ip_output out in_idx idx m s)
  unfolding router_ip_output
  router_ip_output-Processed in_idx idx m s same v = elim (Option-cases (ifnet_getbyidx s idx)) [
    | inl e ↦ rw e (free_pkt-Kept m.id s v)
    | inr (ifp, e) ↦ rw e (
        prepared-Processed in_idx idx m.id s (firewall_process out idx false m s)
          (getbyidx-Known s idx e) (firewall_process-Checked idx false m s same v))
  ]

  -- The route does not change the buffer.
  router_ip_route-SameId : (m : Pkt) → SameId m.id (router_ip_route out m)
  unfolding router_ip_route
  router_ip_route-SameId m = elim (Bool-cases m.is_ipv4) [
    | inl v ↦ elim (Bool-cases (leb m.ip_ttl 1)) [
      | inl t ↦ rw (v, t) tt
      | inr t ↦ rw (v, t) (routed_id (record m { is_ipv4 = true }) (out.lpm_lookup m.ip_dst))
    ]
    | inr v ↦ rw v tt
  ]
    where
      routed_id : (m : Pkt) (o : Option RouteInfo) → SameId m.id (routed out m o)
      routed_id m none = tt
      routed_id m (some rt) = refl

  route_on-Processed :
      (in_idx id : ℕ) (r : Option Pkt) (s : Net M)
      → SameBuffer
      → AllValid s.ifaces
      → SameId id r
      → Ensures (Processed id s) (route_on out in_idx id r s)
  route_on-Processed in_idx id none s same v i = free_pkt-Kept id s v
  route_on-Processed in_idx id (some m) s same v i =
      subst (λ j. Ensures (Processed j s) (router_ip_output out in_idx m.route.if_idx m s)) i
        (router_ip_output-Processed in_idx m.route.if_idx m s same v)

  after_firewall-Processed :
      (in_idx id : ℕ) (s : Net M) (r : Option Pkt × Net M)
      → SameBuffer
      → Checked id s r
      → Ensures (Processed id s) (after_firewall out in_idx r)
  after_firewall-Processed in_idx id s (none, s') same k = k
  after_firewall-Processed in_idx id s (some m, s') same (k, i) =
      Ensures-weaken (route_on out in_idx m.id (router_ip_route out m) s')
        (route_on-Processed in_idx m.id (router_ip_route out m) s' same k.valid
          (router_ip_route-SameId m))
        (λ r p. then-Processed id r k (subst (λ j. Processed j s' r) i p))

  -- A packet that comes in, on every path: it is dropped, answered, consumed by the firewall, or in
  -- hand for an interface that the router knows.
  pub process_packet-Processed :
      (in_idx : ℕ) (m : Pkt) (s : Net M)
      → SameBuffer
      → AllValid s.ifaces
      → Ensures (Processed m.id s) (process_packet out in_idx m s)
  unfolding process_packet l2_input
  process_packet-Processed in_idx m s same v = elim (Bool-cases (not m.has_l2)) [
    | inl h ↦ rw h tt
    | inr h ↦ elim (Bool-cases (m.ether_type == ether_arp)) [
      | inl a ↦ simp (h, a) (arp_input-Kept out in_idx (record m { saved_type = m.ether_type }) s v)
      | inr a ↦ elim (Bool-cases (m.ether_type == ether_ipv4)) [
        | inl i ↦ elim (Bool-cases (ltb m.data_len 14)) [
          | inl l ↦ simp (h, a, i, l) tt
          | inr l ↦
              simp (h, a, i, l)
                (after_firewall-Processed in_idx m.id s
                  (firewall_process out in_idx true (stripped out m) s) same
                  (firewall_process-Checked in_idx true (stripped out m) s same v))
        ]
        | inr i ↦ simp (h, a, i) (free_pkt-Kept m.id s v)
      ]
    ]
  ]
