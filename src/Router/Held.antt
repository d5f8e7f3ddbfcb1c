-- ===== src/Router/Held.antt =====
-- The buffers that the router holds: where each of them is, counted.
use trusted_gateway.Prelude.{
  ℕ, zero, suc, ◌+◌, ◌-◌, ◌≡◌, refl, ap, subst, ◌∙◌, false, List, [], ◌∷◌, some, arith, ◌==◌,
  length, get_elem?, set, count, count-append, length-set, some_inj,
}
use trusted_gateway.Pktq.Contents.{contents, IsValid}
use trusted_gateway.Router.Egress.{Ifnet, pktq_do_menqueue}
use trusted_gateway.Router.Flow.{pktq_do_menqueue_lem}
use trusted_gateway.Router.Net.{
  Iface, Net, ifnet_getbyidx, free_pkt, put_iface, menqueue_to, menqueue,
}

module _ {M : Type 0} where
  -- How often a buffer is in the queue of an interface, or came back to the pool from there.
  abbrev pub at_iface : ℕ → Iface M → ℕ
  at_iface x ifp = count x (contents ifp.link.queue) + count x ifp.link.freed

  abbrev pub at_ifaces : ℕ → List (Iface M) → ℕ
  at_ifaces x [] = 0
  at_ifaces x (ifp ∷ ifps) = at_iface x ifp + at_ifaces x ifps

  -- The same in the whole router.
  abbrev pub held : ℕ → Net M → ℕ
  held x s = at_ifaces x s.ifaces + count x s.freed + count x s.consumed

  abbrev pub AllValid : List (Iface M) → Type 0
  AllValid [] = Unit
  AllValid (ifp ∷ ifps) = IsValid ifp.link.queue × AllValid ifps

  -- A step from `s`, with the buffers `own` in hand, to `s'`, with `own'`: each buffer that is in hand
  -- or comes from the pool is held by the router afterwards, or still in hand.
  pub record Kept (own : List ℕ) (s : Net M) (own' : List ℕ) (s' : Net M) : Type 0 where
    pub valid : AllValid s'.ifaces
    pub same_count : length s'.ifaces ≡ length s.ifaces
    pub balance :
        (x : ℕ) → held x s' + count x own' + count x s.got ≡ held x s + count x own + count x s'.got

  pub Kept-refl : (own : List ℕ) (s : Net M) → AllValid s.ifaces → Kept own s own s
  Kept-refl own s v = record { valid = v; same_count = refl; balance = λ x. refl }

  pub Kept-trans :
      {own own' own'' : List ℕ} {s s' s'' : Net M}
      → Kept own s own' s'
      → Kept own' s' own'' s''
      → Kept own s own'' s''
  Kept-trans k l = record {
    valid = l.valid;
    same_count = l.same_count ∙ k.same_count;
    balance = λ x. omega (arith, k.balance x, l.balance x);
  }

  pub free_pkt-Kept : (m : ℕ) (s : Net M) → AllValid s.ifaces → Kept (m ∷ []) s [] (free_pkt m s)
  free_pkt-Kept m s v = record { valid = v; same_count = refl; balance = λ x. ground arith }

  AllValid-get :
      (ifps : List (Iface M)) (i : ℕ) {ifp : Iface M}
      → AllValid ifps
      → get_elem? ifps i ≡ some ifp
      → IsValid ifp.link.queue
  AllValid-get [] i v e = absurd (cc)
  AllValid-get (p ∷ ps) zero {ifp} (v, vs) e = subst (λ q. IsValid q.link.queue) (some_inj e) v
  AllValid-get (p ∷ ps) (suc i) (v, vs) e = AllValid-get ps i vs e

  AllValid-set :
      (ifps : List (Iface M)) (i : ℕ) (ifp : Iface M)
      → AllValid ifps
      → IsValid ifp.link.queue
      → AllValid (set ifps i ifp)
  AllValid-set [] i ifp v w = tt
  AllValid-set (p ∷ ps) zero ifp (v, vs) w = (w, vs)
  AllValid-set (p ∷ ps) (suc i) ifp (v, vs) w = (v, AllValid-set ps i ifp vs w)

  at_ifaces-set :
      (x : ℕ) (ifps : List (Iface M)) (i : ℕ) {ifp : Iface M} (new : Iface M)
      → get_elem? ifps i ≡ some ifp
      → at_ifaces x (set ifps i new) + at_iface x ifp ≡ at_ifaces x ifps + at_iface x new
  at_ifaces-set x [] i new e = absurd (cc)
  at_ifaces-set x (p ∷ ps) zero {ifp} new e = omega (arith, ap (at_iface x) (some_inj e))
  at_ifaces-set x (p ∷ ps) (suc i) new e = omega (arith, at_ifaces-set x ps i new e)

  -- An index that is known is that of an entry.
  getbyidx_lem :
      (s : Net M) (idx : ℕ) {ifp : Iface M}
      → ifnet_getbyidx s idx ≡ some ifp
      → get_elem? s.ifaces (idx - 1) ≡ some ifp
  unfolding ifnet_getbyidx
  getbyidx_lem s idx e = ground arith

  link_of : Iface M → Ifnet → Iface M
  link_of ifp link = record ifp { link = link }

  -- Enqueueing on a known interface: the buffers go into its queue, or back to the pool.
  pub menqueue_to-Kept :
      (s : Net M) (in_idx idx : ℕ) (m_pool : List ℕ) {ifp : Iface M}
      → ifnet_getbyidx s idx ≡ some ifp
      → AllValid s.ifaces
      → Kept m_pool s [] (menqueue_to (some ifp) in_idx idx m_pool s).1
  unfolding menqueue_to
  menqueue_to-Kept s in_idx idx m_pool {ifp} e v =
      let at_idx = getbyidx_lem s idx e in
      let v_ifp = AllValid-get s.ifaces (idx - 1) v at_idx in
      let (n_eq, (kept, given_back, split, c, fr), ntf, w) =
        pktq_do_menqueue_lem in_idx ifp.link m_pool v_ifp in
      let new : Iface M = record ifp { link = (pktq_do_menqueue in_idx ifp.link m_pool).1 } in
      record {
        valid = AllValid-set s.ifaces (idx - 1) new v w;
        same_count = length-set s.ifaces (idx - 1) new;
        balance = λ x. omega (
          arith,
          at_ifaces-set x s.ifaces (idx - 1) new at_idx,
          ap (count x) split,
          ap (count x) c,
          ap (count x) fr,
          count-append x kept given_back,
          count-append x (contents ifp.link.queue) kept,
          count-append x given_back ifp.link.freed,
        );
      }

  pub menqueue-Kept :
      (s : Net M) (in_idx idx : ℕ) (m_pool : List ℕ) {ifp : Iface M}
      → ifnet_getbyidx s idx ≡ some ifp
      → AllValid s.ifaces
      → Kept m_pool s [] (menqueue in_idx idx m_pool s).1
  unfolding menqueue
  menqueue-Kept s in_idx idx [] e v = Kept-refl [] s v
  menqueue-Kept s in_idx idx (m ∷ ms) e v =
      rw (nonempty, e) (menqueue_to-Kept s in_idx idx (m ∷ ms) e v)
    where
      nonempty : (length (m ∷ ms) == 0) ≡ false
      nonempty = ground arith

  -- A change of an interface that leaves its queue alone.
  pub put_cache-Kept :
      (own : List ℕ) (s : Net M) (idx : ℕ) {ifp : Iface M} (cache : M)
      → ifnet_getbyidx s idx ≡ some ifp
      → AllValid s.ifaces
      → Kept own s own (put_iface idx (record ifp { arp_cache = cache }) s)
  put_cache-Kept own s idx {ifp} cache e v =
      let at_idx = getbyidx_lem s idx e in
      let new : Iface M = record ifp { arp_cache = cache } in
      record {
        valid = AllValid-set s.ifaces (idx - 1) new v (AllValid-get s.ifaces (idx - 1) v at_idx);
        same_count = length-set s.ifaces (idx - 1) new;
        balance = λ x. omega (arith, at_ifaces-set x s.ifaces (idx - 1) new at_idx);
      }
