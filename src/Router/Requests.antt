-- ===== src/Router/Requests.antt =====
-- Address resolution loses no buffer.
use trusted_gateway.Prelude.{
  ℕ, ◌≡◌, inl, inr, refl, Bool, true, false, not, ◌&&◌, List, [], ◌∷◌, ◌++◌, Option, none, some,
  Ensures, Ensures-map, arith, ◌==◌, ltb, leb, length, count-append, Bool-cases, Option-cases,
}
use trusted_gateway.Router.Net.{RouteInfo, Pkt, Outside, Iface, Net, ifnet_getbyidx, put_iface}
use trusted_gateway.Router.Resolve.{
  arp_cache, arp_cache_lookup, pktq_enqueue, send_request, arp_resolve, headed, router_if_output,
  sent_to, pktq_prepare_enqueue,
}
use trusted_gateway.Router.Arp.{
  header_ok, arp_is_interesting, reply, answered, arp_answer, arp_input,
}
use trusted_gateway.Router.Held.{
  AllValid, Kept, Kept-refl, Kept-trans, free_pkt-Kept, menqueue_to-Kept, put_cache-Kept,
}

module _ {M : Type 0} where
  -- What is in hand on both sides of a step may be more.
  pub Kept-frame :
      {own own' : List ℕ} {s s' : Net M} (rest : List ℕ)
      → Kept own s own' s'
      → Kept (own ++ rest) s (own' ++ rest) s'
  Kept-frame {own} {own'} rest k = record {
    valid = k.valid;
    same_count = k.same_count;
    balance = λ x. omega (arith, k.balance x, count-append x own rest, count-append x own' rest);
  }

-- The packet that is in hand after a call, if any.
abbrev pub in_hand : Option Pkt → List ℕ
in_hand none = []
in_hand (some m) = m.id ∷ []

-- The packet of the result is the one that was given.
abbrev pub SameId : ℕ → Option Pkt → Type 0
SameId m none = Unit {0}
SameId m (some m') = m'.id ≡ m

module _ {M : Type 0} (out : Outside M) where
  abbrev left_over : Bool → ℕ → List ℕ
  left_over true m = []
  left_over false m = m ∷ []

  pktq_enqueue-Kept :
      (in_idx idx m : ℕ) (s : Net M)
      → AllValid s.ifaces
      → Kept
          (m ∷ [])
          s
          (left_over (pktq_enqueue out in_idx idx m s).0 m)
          (pktq_enqueue out in_idx idx m s).1
  unfolding pktq_enqueue
  pktq_enqueue-Kept in_idx idx m s v = elim (Option-cases (ifnet_getbyidx s idx)) [
    | inl e ↦ rw e (Kept-refl (m ∷ []) s v)
    | inr (ifp, e) ↦ rw e (menqueue_to-Kept s in_idx idx (m ∷ []) e v)
  ]

  -- A reply that was not put into the queue goes back to the pool.
  replied-Kept :
      (m : ℕ) (r : Pkt) (s : Net M) (e : Bool × Net M)
      → Kept (m ∷ []) s (left_over e.0 m) e.1
      → Kept (m ∷ []) s [] (answered out m r e).1
  replied-Kept m r s (true, s') k = k
  replied-Kept m r s (false, s') k = Kept-trans k (free_pkt-Kept m s' k.valid)

  arp_answer-Kept :
      (in_idx : ℕ) {ifp : Iface M} (targeted : Bool) (m : Pkt) (s : Net M)
      → ifnet_getbyidx s in_idx ≡ some ifp
      → AllValid s.ifaces
      → Kept (m.id ∷ []) s [] (arp_answer out in_idx ifp targeted m s).1
  unfolding arp_answer arp_cache
  arp_answer-Kept in_idx {ifp} targeted m s e v =
      let s' = put_iface in_idx (arp_cache out ifp m.arp.arp_sip m.arp.arp_sha targeted) s in
      let k = put_cache-Kept (m.id ∷ []) s in_idx _ e v in
      elim (Bool-cases (targeted && (m.arp.arp_opcode == 1))) [
        | inl t ↦ rw t (
            Kept-trans k (
              replied-Kept m.id (reply ifp m) s'
                (pktq_enqueue out in_idx ifp.link.ifnet_idx m.id s')
                (pktq_enqueue-Kept in_idx ifp.link.ifnet_idx m.id s' k.valid)))
        | inr t ↦ rw t (Kept-trans k (free_pkt-Kept m.id s' k.valid))
      ]

  pub arp_input-Kept :
      (in_idx : ℕ) (m : Pkt) (s : Net M)
      → AllValid s.ifaces
      → Kept (m.id ∷ []) s [] (arp_input out in_idx m s).1
  unfolding arp_input
  arp_input-Kept in_idx m s v = elim (Option-cases (ifnet_getbyidx s in_idx)) [
    | inl e ↦ rw e (free_pkt-Kept m.id s v)
    | inr (ifp, e) ↦ elim (Bool-cases (header_ok m.arp)) [
      | inl h ↦ elim (Option-cases (arp_is_interesting m.arp ifp)) [
        | inl i ↦ rw (e, h, i) (free_pkt-Kept m.id s v)
        | inr (targeted, i) ↦ rw (e, h, i) (arp_answer-Kept in_idx targeted m s e v)
      ]
      | inr h ↦ rw (e, h) (free_pkt-Kept m.id s v)
    ]
  ]

  -- A request takes a buffer from the pool and puts it into the queue.
  send_request-Kept :
      {ifp : Iface M} (in_idx : ℕ) (rt : RouteInfo) (s : Net M)
      → ifnet_getbyidx s rt.if_idx ≡ some ifp
      → AllValid s.ifaces
      → Ensures (Kept [] s []) (send_request out ifp in_idx rt s)
  unfolding send_request
  send_request-Kept {ifp} in_idx rt s e v =
      elim (Bool-cases (leb (length ifp.ips) rt.if_addr_idx)) [
        | inl h ↦ rw h tt
        | inr h ↦ rw (h, e) (Kept-trans taken (menqueue_to-Kept s1 in_idx rt.if_idx (m ∷ []) e v))
      ]
    where
      m : ℕ
      m = out.new_buf (length s.got)

      s1 : Net M
      s1 = record s { got = m ∷ s.got }

      taken : Kept [] s (m ∷ []) s1
      taken = record { valid = v; same_count = refl; balance = λ x. ground arith }

  arp_resolve-Kept :
      (in_idx : ℕ) (rt : RouteInfo) (s : Net M)
      → AllValid s.ifaces
      → Ensures (λ r. Kept [] s [] r.1) (arp_resolve out in_idx rt s)
  unfolding arp_resolve
  arp_resolve-Kept in_idx rt s v = elim (Option-cases (ifnet_getbyidx s rt.if_idx)) [
    | inl e ↦ rw e (Kept-refl [] s v)
    | inr (ifp, e) ↦ elim (Option-cases (arp_cache_lookup out ifp rt.next_hop)) [
      | inl c ↦
          rw (e, c)
            (Ensures-map (λ r. Kept [] s [] r.1) (send_request out ifp in_idx rt s) _
              (send_request-Kept in_idx rt s e v) (λ s' k. k))
      | inr (hw, c) ↦ rw (e, c) (Kept-refl [] s v)
    ]
  ]

  abbrev Resolved : ℕ → Net M → Option Pkt × Net M → Type 0
  Resolved id s (r, s') = Kept [] s [] s' × SameId id r

  headed-SameId : (src : ℕ) (hw : Option ℕ) (m : Pkt) → SameId m.id (headed out src hw m)
  headed-SameId src none m = tt
  headed-SameId src (some hw) m = refl

  router_if_output-Resolved :
      (in_idx : ℕ) (ifp : Iface M) (m : Pkt) (s : Net M)
      → AllValid s.ifaces
      → Ensures (Resolved m.id s) (router_if_output out in_idx ifp m s)
  unfolding router_if_output
  router_if_output-Resolved in_idx ifp m s v = elim (Bool-cases (not m.need_l2)) [
    | inl n ↦ rw n (Kept-refl [] s v, refl)
    | inr n ↦ elim (Bool-cases (ltb m.data_off 14)) [
      | inl h ↦ rw (n, h) (Kept-refl [] s v, tt)
      | inr h ↦
          rw (n, h)
            (Ensures-map (Resolved m.id s) (arp_resolve out in_idx m.route s) _
              (arp_resolve-Kept in_idx m.route s v)
              (λ (hw, s') k. (k, headed-SameId ifp.hwaddr hw m)))
    ]
  ]

  -- The packet is as before, and its interface is the one that was asked for.
  abbrev pub PreparedFor : ℕ → ℕ → Net M → Option Pkt × Net M → Type 0
  PreparedFor id idx s (none, s') = Kept [] s [] s'
  PreparedFor id idx s (some m, s') = Kept [] s [] s' × (m.id ≡ id) × (m.out_if_idx ≡ idx)

  sent_to-PreparedFor :
      (id idx : ℕ) (s : Net M) (r : Option Pkt × Net M)
      → Resolved id s r
      → PreparedFor id idx s (sent_to out idx r)
  sent_to-PreparedFor id idx s (none, s') (k, i) = k
  sent_to-PreparedFor id idx s (some m, s') (k, i) = (k, i, refl)

  pub pktq_prepare_enqueue-PreparedFor :
      (in_idx out_if_idx : ℕ) (m : Pkt) (s : Net M)
      → AllValid s.ifaces
      → Ensures (PreparedFor m.id out_if_idx s) (pktq_prepare_enqueue out in_idx out_if_idx m s)
  unfolding pktq_prepare_enqueue
  pktq_prepare_enqueue-PreparedFor in_idx out_if_idx m s v =
      elim (Option-cases (ifnet_getbyidx s out_if_idx)) [
        | inl e ↦ rw e (Kept-refl [] s v)
        | inr (ifp, e) ↦ rw e (
            Ensures-map (PreparedFor m.id out_if_idx s) (router_if_output out in_idx ifp m s) _
              (router_if_output-Resolved in_idx ifp m s v) (sent_to-PreparedFor m.id out_if_idx s))
      ]
