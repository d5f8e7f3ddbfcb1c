-- ===== src/Router/Learned.antt =====
-- What `arp_input` of net/router/src/arp.c does to the caches of the interfaces.
use trusted_gateway.Prelude.{
  ℕ, zero, suc, ◌-◌, ◌≡◌, ◌⊎◌, inl, inr, refl, ap, subst, sym, ◌∙◌, Bool, true, false, ◌&&◌, ◌||◌,
  List, [], ◌∷◌, Option, none, some, arith, ◌==◌, ==→eq, ltb, length, set, length-set, get_elem?,
  if◌then◌else◌, Bool-cases, Option-cases,
}
use trusted_gateway.Router.Egress.{Ifnet, pktq_do_menqueue}
use trusted_gateway.Router.Net.{
  Pkt, Outside, Iface, Net, ifnet_getbyidx, put_iface, menqueue_to, menqueue,
}
use trusted_gateway.Router.Resolve.{arp_cache, arp_cache_lookup, pktq_enqueue}
use trusted_gateway.Router.Arp.{
  header_ok, arp_is_interesting, reply, answered, arp_answer, arp_input,
}
use trusted_gateway.Router.Answers.{IsMap, arp_cache-Extends}

-- The element at an index after one was set.
get_elem?-set {ℓ} :
    {A : Type ℓ} (xs : List A) (i j : ℕ) {x : A} (y : A)
    → get_elem? xs i ≡ some x
    → get_elem? (set xs i y) j ≡ (if i == j then some y else get_elem? xs j)
get_elem?-set [] i j y e = absurd (cc e)
get_elem?-set (z ∷ zs) zero zero y e = refl
get_elem?-set (z ∷ zs) zero (suc j) y e = ground arith
get_elem?-set (z ∷ zs) (suc i) zero y e = ground arith
get_elem?-set (z ∷ zs) (suc i) (suc j) y e = ground (arith, get_elem?-set zs i j y e)

module _ {M : Type 0} (out : Outside M) where
  abbrev pub of_iface : Option (Iface M) → ℕ → Option ℕ
  of_iface none a = none
  of_iface (some ifp) a = arp_cache_lookup out ifp a

  -- The hardware address that the interface of an index has for an address.
  abbrev pub known : Net M → ℕ → ℕ → Option ℕ
  known s j a = of_iface (ifnet_getbyidx s j) a

  getbyidx-put :
      (s : Net M) (idx j : ℕ) (ifp new : Iface M)
      → ifnet_getbyidx s idx ≡ some ifp
      → ifnet_getbyidx (put_iface idx new s) j ≡ (if idx == j then some new else ifnet_getbyidx s j)
  unfolding ifnet_getbyidx
  getbyidx-put s idx j ifp new e = elim (Bool-cases ((idx == 0) || ltb (length s.ifaces) idx)) [
    | inl out_of ↦ absurd (cc (rw out_of at e))
    | inr inside ↦ elim (Bool-cases ((j == 0) || ltb (length s.ifaces) j)) [
      | inl j_out ↦ ground (arith, length-set s.ifaces (idx - 1) new, inside, j_out)
      | inr j_in ↦
          let there : get_elem? s.ifaces (idx - 1) ≡ some ifp = rw inside at e in
          ground (
            arith,
            length-set s.ifaces (idx - 1) new,
            inside,
            j_in,
            get_elem?-set s.ifaces (idx - 1) (j - 1) new there,
          )
    ]
  ]

  put-known :
      (s : Net M) (idx j a : ℕ) (ifp new : Iface M)
      → ifnet_getbyidx s idx ≡ some ifp
      → ((idx ≡ j)
          × (known s j a ≡ arp_cache_lookup out ifp a)
          × (known (put_iface idx new s) j a ≡ arp_cache_lookup out new a))
        ⊎ (known (put_iface idx new s) j a ≡ known s j a)
  put-known s idx j a ifp new e = elim (Bool-cases (idx == j)) [
    | inl t ↦
        let same : idx ≡ j = ==→eq idx j t in
        inl (
          same,
          ap (λ o. of_iface o a) (ap (ifnet_getbyidx s) (sym same) ∙ e),
          ap (λ o. of_iface o a) (getbyidx-put s idx j ifp new e ∙ chosen true t),
        )
    | inr f ↦ inr (ap (λ o. of_iface o a) (getbyidx-put s idx j ifp new e ∙ chosen false f))
  ]
    where
      chosen :
          (b : Bool)
          → (idx == j) ≡ b
          → (if idx == j then some new else ifnet_getbyidx s j)
            ≡ (if b then some new else ifnet_getbyidx s j)
      chosen b t = ap (λ c. if c then some new else ifnet_getbyidx s j) t

  same_cache :
      (ifp : Iface M) (link : Ifnet) (a : ℕ)
      → arp_cache_lookup out (record ifp { link = link }) a ≡ arp_cache_lookup out ifp a
  unfolding arp_cache_lookup
  same_cache ifp link a = refl

  -- What is queued on an interface does not change what it knows.
  link-known :
      (s : Net M) (idx j a : ℕ) (ifp : Iface M) (link : Ifnet)
      → ifnet_getbyidx s idx ≡ some ifp
      → known (put_iface idx (record ifp { link = link }) s) j a ≡ known s j a
  link-known s idx j a ifp link e = elim (put-known s idx j a ifp (record ifp { link = link }) e) [
    | inl (same, before, after) ↦ after ∙ same_cache ifp link a ∙ sym before
    | inr kept ↦ kept
  ]

  enqueue-known :
      (in_idx idx m : ℕ) (s : Net M) (j a : ℕ)
      → known (pktq_enqueue out in_idx idx m s).1 j a ≡ known s j a
  enqueue-known in_idx idx m s j a = elim (Option-cases (ifnet_getbyidx s idx)) [
    | inl n ↦ unfold pktq_enqueue menqueue menqueue_to in rw n refl
    | inr (ifp, f) ↦
        let link = (pktq_do_menqueue in_idx ifp.link (m ∷ [])).1 in
        ap (λ s'. known s' j a) {y = put_iface idx (record ifp { link = link }) s}
          (unfold pktq_enqueue menqueue menqueue_to in rw f refl)
        ∙ link-known s idx j a ifp link f
  ]

  -- What one packet teaches: nothing, or the sender's address, to the interface that it came in on.
  abbrev pub Learned : ℕ → Pkt → Net M → Net M → Type 0
  Learned in_idx m s s' =
      (j a : ℕ)
      → (known s' j a ≡ known s j a)
        ⊎ ((j ≡ in_idx)
            × (a ≡ m.arp.arp_sip)
            × (known s j a ≡ none)
            × (known s' j a ≡ some m.arp.arp_sha)
            × (header_ok m.arp ≡ true)
            × ((ifp : Iface M) × (ifnet_getbyidx s in_idx ≡ some ifp)
                × (arp_is_interesting m.arp ifp ≡ some true)))

  answered-known :
      (m : ℕ) (r : Pkt) (e : Bool × Net M) (j a : ℕ)
      → known (answered out m r e).1 j a ≡ known e.1 j a
  answered-known m r (true, s) j a = refl
  answered-known m r (false, s) j a = unfold ifnet_getbyidx in refl

  answer-known :
      (in_idx : ℕ) (ifp : Iface M) (targeted : Bool) (m : Pkt) (s : Net M) (j a : ℕ)
      → known (arp_answer out in_idx ifp targeted m s).1 j a
        ≡ known (put_iface in_idx (arp_cache out ifp m.arp.arp_sip m.arp.arp_sha targeted) s) j a
  unfolding arp_answer
  answer-known in_idx ifp targeted m s j a =
      elim (Bool-cases (targeted && (m.arp.arp_opcode == 1))) [
        | inl t ↦ rw t (
            answered-known m.id (reply ifp m) _ j a
            ∙ enqueue-known in_idx ifp.link.ifnet_idx m.id _ j a)
        | inr f ↦ rw f (unfold ifnet_getbyidx in refl)
      ]

  answer-Learned :
      (in_idx : ℕ) (ifp : Iface M) (targeted : Bool) (m : Pkt) (s : Net M)
      → ifnet_getbyidx s in_idx ≡ some ifp
      → header_ok m.arp ≡ true
      → arp_is_interesting m.arp ifp ≡ some targeted
      → IsMap out
      → Learned in_idx m s (arp_answer out in_idx ifp targeted m s).1
  answer-Learned in_idx ifp targeted m s e k i law j a =
      let same = answer-known in_idx ifp targeted m s j a in
      let new = arp_cache out ifp m.arp.arp_sip m.arp.arp_sha targeted in
      elim (put-known s in_idx j a ifp new e) [
        | inr kept ↦ inl (same ∙ kept)
        | inl (here, before, after) ↦
            elim (arp_cache-Extends out ifp m.arp.arp_sip m.arp.arp_sha targeted a law) [
              | inl unchanged ↦ inl (same ∙ after ∙ unchanged ∙ sym before)
              | inr (unknown, sender, allowed, now) ↦ inr (
                sym here,
                sender,
                before ∙ unknown,
                same ∙ after ∙ now,
                k,
                (ifp, e, i ∙ ap some allowed),
              )
            ]
      ]

  -- With a hash map that keeps what is put in it under its key, and everything else as it was: a packet
  -- for `arp_input` teaches the router at most one address: the sender's, with the sender's
  -- hardware address, and only to the interface that the packet came in on. What that interface
  -- already knows of the address is never replaced, and the address is only added if the packet's
  -- header is correct and the packet is interesting and meant for the router. Every other address
  -- of every interface is known as before.
  pub arp_input-Learned :
      (in_idx : ℕ) (m : Pkt) (s : Net M)
      → IsMap out
      → Learned in_idx m s (arp_input out in_idx m s).1
  unfolding arp_input
  arp_input-Learned in_idx m s law j a = elim (Option-cases (ifnet_getbyidx s in_idx)) [
    | inl e ↦ rw e (inl (unfold ifnet_getbyidx in refl))
    | inr (ifp, e) ↦ elim (Bool-cases (header_ok m.arp)) [
      | inr k ↦ rw (e, k) (inl (unfold ifnet_getbyidx in refl))
      | inl k ↦ elim (Option-cases (arp_is_interesting m.arp ifp)) [
        | inl i ↦ rw (e, k, i) (inl (unfold ifnet_getbyidx in refl))
        | inr (targeted, i) ↦
            let there : arp_input out in_idx m s ≡ arp_answer out in_idx ifp targeted m s =
              rw (e, k, i) refl in
            subst (λ r. Learned in_idx m s r.1) (sym there)
              (answer-Learned in_idx ifp targeted m s e k i law) j a
      ]
    ]
  ]
