-- ===== src/Txq/Slots.antt =====
-- The slots of the transmit ring, and which of them are in use.
use trusted_gateway.Prelude.{
  ℕ, zero, suc, ◌+◌, ◌≤◌, ◌<◌, ◌≡◌, inl, inr, refl, ap, Bool, false, ◌&&◌, ◌||◌, [], ◌∷◌, Option,
  none, some, arith, if◌then◌else◌, ◌==◌, ==→eq, ltb, leb, count, Bool-cases,
}
use trusted_gateway.Txq.Ring.{Txq, put}

-- How often a packet is in a slot, in the first `n` slots, and in the ring or back in the pool.
abbrev pub hit : Option ℕ → ℕ → ℕ
hit none x = 0
hit (some y) x = count x (y ∷ [])

abbrev pub in_ring : ℕ → (ℕ → Option ℕ) → ℕ → ℕ
in_ring zero f x = 0
in_ring (suc n) f x = hit (f n) x + in_ring n f x

abbrev pub total : Txq → ℕ → ℕ
total q x = in_ring q.ring_size q.tx_skbuff x + count x q.freed

-- The slots that the card may be sending from: from `pending_tx` up to `cur`, around the end.
abbrev pub in_flight : Txq → ℕ → Bool
in_flight q i =
    if leb q.pending_tx q.cur
    then leb q.pending_tx i && ltb i q.cur
    else leb q.pending_tx i || ltb i q.cur

pub record IsValid (q : Txq) : Type 0 where
  pub cur_in : q.cur < q.ring_size
  pub pending_in : q.pending_tx < q.ring_size
  pub others_free : (i : ℕ) → i < q.ring_size → in_flight q i ≡ false → q.tx_skbuff i ≡ none

pub put_ne {ℓ} : {A : Type ℓ} (f : ℕ → A) (i j : ℕ) (a : A) → (i == j) ≡ false → put f i a j ≡ f j
put_ne f i j a e = rw e refl

in_ring-put_out :
    (n : ℕ) (f : ℕ → Option ℕ) (i : ℕ) (a : Option ℕ) (x : ℕ)
    → n ≤ i
    → in_ring n (put f i a) x ≡ in_ring n f x
in_ring-put_out zero f i a x h = refl
in_ring-put_out (suc n) f i a x h =
    rw ne (ap (λ m. hit (f n) x + m) (in_ring-put_out n f i a x (omega arith)))
  where
    ne : (i == n) ≡ false
    ne = ground (arith, h)

pub in_ring-put :
    (n : ℕ) (f : ℕ → Option ℕ) (i : ℕ) (a : Option ℕ) (x : ℕ)
    → i < n
    → in_ring n (put f i a) x + hit (f i) x ≡ in_ring n f x + hit a x
in_ring-put zero f i a x h = absurd (omega arith)
in_ring-put (suc n) f i a x h = elim (Bool-cases (i == n)) [
  | inl e ↦
      let same : i ≡ n = ==→eq i n e in
      rw e
        (omega (arith, ap (λ j. hit (f j) x) same, in_ring-put_out n f i a x (omega (arith, same))))
  | inr e ↦ rw e (omega (arith, in_ring-put n f i a x (ground (arith, e, h))))
]
