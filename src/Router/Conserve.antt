-- ===== src/Router/Conserve.antt =====
-- No buffer is lost or doubled in `router_if_input`, while there are at most seven interfaces.
use trusted_gateway.Prelude.{
  ℕ, zero, suc, ◌+◌, ◌-◌, ◌*◌, ◌^◌, ◌≤◌, ◌<◌, ◌≡◌, inl, inr, refl, ap, subst, sym, ◌∙◌, Bool, true,
  false, List, [], ◌∷◌, ◌++◌, append-nil, Option, none, some, Outcome, ok, panic, Ensures, ◌>>=◌,
  arith, ◌==◌, ==→eq, ltb, ◌||◌, length, get_elem?, count, count-append, bit_and, Bool-cases,
}
use trusted_gateway.Prelude.Bits.{bit, bit_and-pow}
use trusted_gateway.Router.Net.{
  Pkt, Outside, Iface, Net, ifnet_dev_count, ifnet_getbyidx, free_pkt, menqueue,
}
use trusted_gateway.Router.Input.{
  process_packet, Batch, add_to, collected, route_all, enqueue_all, free_all, router_if_input,
}
use trusted_gateway.Router.Held.{
  AllValid, Kept, Kept-refl, Kept-trans, free_pkt-Kept, menqueue-Kept,
}
use trusted_gateway.Router.Requests.{Kept-frame}
use trusted_gateway.Router.Process.{SameBuffer, Processed, process_packet-Processed}
use trusted_gateway.Router.Batches.{
  pow_pos, Marked, collect-Marked, pending, pending-add_to, pending_none,
}

abbrev pub pkt_ids : List Pkt → List ℕ
pkt_ids [] = []
pkt_ids (m ∷ ms) = m.id ∷ pkt_ids ms

mul_zero : (p b : ℕ) → 0 < p → p * b ≡ 0 → b ≡ 0
mul_zero p zero h e = refl
mul_zero p (suc b) h e = absurd (grind (arith, h, e))

get_some {ℓ} :
    {A : Type ℓ} (xs : List A) (i : ℕ) → i < length xs → (a : A) × (get_elem? xs i ≡ some a)
get_some [] i h = absurd (omega arith)
get_some (x ∷ xs) zero h = (x, refl)
get_some (x ∷ xs) (suc i) h = get_some xs i (omega arith)

module _ {M : Type 0} where
  -- What is in hand is counted, not ordered.
  Kept-swap :
      {own own' own'' : List ℕ} {s s' : Net M}
      → Kept own s own' s'
      → ((x : ℕ) → count x own' ≡ count x own'')
      → Kept own s own'' s'
  Kept-swap k e = record {
    valid = k.valid;
    same_count = k.same_count;
    balance = λ x. omega (arith, k.balance x, e x);
  }

  getbyidx_some :
      (s : Net M) (j : ℕ)
      → 1 ≤ j
      → j ≤ length s.ifaces
      → (ifp : Iface M) × (ifnet_getbyidx s j ≡ some ifp)
  unfolding ifnet_getbyidx
  getbyidx_some s j low high =
      let (ifp, e) = get_some s.ifaces (j - 1) (omega arith) in (ifp, rw inside e)
    where
      inside : (j == 0 || ltb (length s.ifaces) j) ≡ false
      inside = ground arith

module _ {M : Type 0} (out : Outside M) where
  -- The packets from the arrays of the interfaces from `j` on go into the queues.
  enqueue_all-Kept :
      (in_idx : ℕ) (b : Batch) (left j : ℕ) (s : Net M)
      → Marked b
      → 1 ≤ j
      → j + left ≡ suc (length s.ifaces)
      → length s.ifaces ≤ 7
      → AllValid s.ifaces
      → Kept (pending b.arrays j left) s [] (enqueue_all out in_idx b left j s)
  unfolding enqueue_all pending
  enqueue_all-Kept in_idx b zero j s m low fit seven v = Kept-refl [] s v
  enqueue_all-Kept in_idx b (suc left) j s m low fit seven v =
      elim (Bool-cases (bit_and b.egr_idx (2 ^ j) == 0)) [
        | inl e ↦
            let clear : bit j b.egr_idx ≡ 0 =
              mul_zero (2 ^ j) (bit j b.egr_idx) (pow_pos j)
                (sym (bit_and-pow j b.egr_idx) ∙ ==→eq (bit_and b.egr_idx (2 ^ j)) 0 e) in
            rw (e, m j (omega arith) clear)
              (enqueue_all-Kept in_idx b left (j + 1) s m (omega arith) (omega arith) seven v)
        | inr e ↦
            let (ifp, known) = getbyidx_some s j low (omega arith) in
            let k = menqueue-Kept s in_idx j (b.arrays j) known v in
            rw e (
              Kept-trans (Kept-frame (pending b.arrays (j + 1) left) k) (
                enqueue_all-Kept in_idx b left (j + 1) (menqueue in_idx j (b.arrays j) s).1 m
                  (omega arith) (omega (arith, k.same_count)) (omega (arith, k.same_count))
                  k.valid))
      ]

  -- The packets in the arrays of the `n` interfaces, and the marks.
  abbrev Routed : ℕ → List ℕ → Net M → Batch × Net M → Type 0
  Routed n own s (b, s') = Kept own s (pending b.arrays 1 n) s' × Marked b

  collected-Kept :
      (n : ℕ) (m : Pkt) (rest : List ℕ) (b : Batch) (s : Net M) (r : Option Pkt) (s' : Net M)
      → length s.ifaces ≡ n
      → Processed out m.id s (r, s')
      → Kept
          (m.id ∷ (rest ++ pending b.arrays 1 n))
          s
          (rest ++ pending (collected r b).arrays 1 n)
          s'
  collected-Kept n m rest b s none s' size k = Kept-frame (rest ++ pending b.arrays 1 n) k
  collected-Kept n m rest b s (some p) s' size (k, i, low, high) =
      Kept-swap (Kept-frame (rest ++ pending b.arrays 1 n) k) (λ x. ground (
        arith,
        i,
        count-append x rest (pending b.arrays 1 n),
        count-append x rest (pending (add_to b.arrays p.out_if_idx p.id) 1 n),
        pending-add_to b.arrays p.out_if_idx p.id 1 n x low (omega (arith, k.same_count)),
      ))

  collected-Marked : (r : Option Pkt) (b : Batch) → Marked b → Marked (collected r b)
  collected-Marked none b mk = mk
  collected-Marked (some p) b mk = collect-Marked p.out_if_idx p.id b mk

  route_all-Routed :
      (n in_idx : ℕ) (ms : List Pkt) (b : Batch) (s : Net M)
      → SameBuffer out
      → length s.ifaces ≡ n
      → Marked b
      → AllValid s.ifaces
      → Ensures (Routed n (pkt_ids ms ++ pending b.arrays 1 n) s) (route_all out in_idx ms b s)
  unfolding route_all
  route_all-Routed n in_idx [] b s same size mk v = (Kept-refl (pending b.arrays 1 n) s v, mk)
  route_all-Routed n in_idx (m ∷ ms) b s same size mk v =
      settle (process_packet out in_idx m s) (process_packet-Processed out in_idx m s same v)
        (λ b' s' size' mk' v'. route_all-Routed n in_idx ms b' s' same size' mk' v')
    where
      later :
          {own own' : List ℕ} (s' : Net M) (o : Outcome (Batch × Net M))
          → Kept own s own' s'
          → Ensures (Routed n own' s') o
          → Ensures (Routed n own s) o
      later s' (ok (b'', s'')) k (l, mk'') = (Kept-trans k l, mk'')
      later s' (panic e) k h = tt

      settle :
          (o : Outcome (Option Pkt × Net M))
          → Ensures (Processed out m.id s) o
          → ((b' : Batch) (s' : Net M)
              → length s'.ifaces ≡ n
              → Marked b'
              → AllValid s'.ifaces
              → Ensures
                  (Routed n (pkt_ids ms ++ pending b'.arrays 1 n) s')
                  (route_all out in_idx ms b' s'))
          → Ensures
              (Routed n (m.id ∷ (pkt_ids ms ++ pending b.arrays 1 n)) s)
              (o >>= λ (r, s'). route_all out in_idx ms (collected r b) s')
      settle (ok (r, s')) p again =
          let k = collected-Kept n m (pkt_ids ms) b s r s' size p in
          later s' (route_all out in_idx ms (collected r b) s') k
            (again (collected r b) s' (k.same_count ∙ size) (collected-Marked r b mk) k.valid)
      settle (panic e) p again = tt

  free_all-Kept :
      (ms : List Pkt) (s : Net M) → AllValid s.ifaces → Kept (pkt_ids ms) s [] (free_all out ms s)
  free_all-Kept [] s v = Kept-refl [] s v
  free_all-Kept (m ∷ ms) s v =
      let k = free_pkt-Kept m.id s v in
      Kept-trans (Kept-frame (pkt_ids ms) k) (free_all-Kept ms (free_pkt m.id s) k.valid)

  -- A call of `router_if_input` that returns, with at most seven interfaces, and a firewall that
  -- answers the buffer that it was given: each buffer of the burst, and each that the pool has handed
  -- out meanwhile, is in a queue, back in the pool or the firewall's, once, and so is each that was
  -- there before; the queues stay valid.
  pub router_if_input-Kept :
      (allocated : Bool) (in_idx : ℕ) (pkts : List Pkt) (s : Net M)
      → SameBuffer out
      → length s.ifaces ≤ 7
      → AllValid s.ifaces
      → Ensures (Kept (pkt_ids pkts) s []) (router_if_input out allocated in_idx pkts s)
  unfolding router_if_input
  router_if_input-Kept false in_idx pkts s same seven v = free_all-Kept pkts s v
  router_if_input-Kept true in_idx pkts s same seven v =
      settle (route_all out in_idx pkts empty s)
        (route_all-Routed n in_idx pkts empty s same refl (λ j h e. refl) v)
    where
      n : ℕ
      n = length s.ifaces

      empty : Batch
      empty = record { egr_idx = 0; arrays = λ j. [] }

      start : pkt_ids pkts ++ pending empty.arrays 1 n ≡ pkt_ids pkts
      start = ap (λ xs. pkt_ids pkts ++ xs) (pending_none 1 n) ∙ append-nil (pkt_ids pkts)

      settle :
          (o : Outcome (Batch × Net M))
          → Ensures (Routed n (pkt_ids pkts ++ pending empty.arrays 1 n) s) o
          → Ensures
              (Kept (pkt_ids pkts) s [])
              (o >>= λ (b, s'). ok (enqueue_all out in_idx b (ifnet_dev_count s) 1 s'))
      settle (ok (b, s')) (k, mk) =
          Kept-trans (subst (λ own. Kept own s (pending b.arrays 1 n) s') start k) (
            enqueue_all-Kept in_idx b n 1 s' mk (omega arith) (omega (arith, k.same_count))
              (omega (arith, k.same_count)) k.valid)
      settle (panic e) h = tt
