-- ===== src/Vqueue/Corrupt.antt =====
-- What the other side has done to the ring when `vqueue_get_avail_buf` panics.
use trusted_gateway.Prelude.{
  ℕ, zero, suc, ◌≤◌, ◌<◌, ◌≡◌, ◌≢◌, ◌⊎◌, inl, inr, refl, subst, Option, none, some, Outcome, ok,
  panic, Fault, bad_ring, arith, ◌==◌, ltb, leb, Bool-cases,
}
use trusted_gateway.Vqueue.State.{Desc, Ring, Vqueue, Buf, Status, u16, u32}
use trusted_gateway.Vqueue.Avail.{
  list_of, put_buf, walk, rounds, taken, avail_count, head_of, advance, or_stuck,
  vqueue_get_avail_buf,
}

-- A descriptor whose address `paddr_t` cannot hold, or is another one when it is read again.
abbrev pub BadAddr : Ring → ℕ → Type 0
BadAddr ring num = (i : ℕ) × (i < num) × (u32 (ring.desc i).addr ≢ (ring.desc i).addr_again)

-- Of a queue that is set up: more buffers are available than the ring has room for, or one is there
-- whose head is outside the table, or there is a descriptor with a bad address.
abbrev pub Corrupted : Ring → Vqueue → Type 0
Corrupted ring vq =
    (vq.vring_addr ≢ 0)
    × ((u16 vq.num < avail_count ring vq)
        ⊎ ((vq.last_avail_idx ≢ ring.avail_idx_again) × (vq.num ≤ head_of ring vq))
        ⊎ BadAddr ring vq.num)

abbrev Panics {ℓ} : {A : Type ℓ} → Type 0 → Option (Outcome A) → Type 0
Panics bad none = Unit
Panics bad (some (ok r)) = Unit
Panics bad (some (panic e)) = (e ≡ bad_ring) × bad

walk-BadAddr :
    (fuel : ℕ) (ring : Ring) (num i : ℕ) (b : Buf)
    → Panics (BadAddr ring num) (walk fuel ring num i b)
unfolding walk
walk-BadAddr zero ring num i b = tt
walk-BadAddr (suc fuel) ring num i b = elim (Bool-cases (leb num i)) [
  | inl h ↦ rw h tt
  | inr h ↦ elim (Bool-cases (ltb (list_of d b).used (list_of d b).cnt)) [
    | inr k ↦ rw (h, k) tt
    | inl k ↦ elim (Bool-cases (u32 d.addr == d.addr_again)) [
      | inr a ↦ rw (h, k, a) (refl, (i, ground (arith, h), ground (arith, a)))
      | inl a ↦ elim (Bool-cases d.f_next) [
        | inr n ↦ rw (h, k, a, n) tt
        | inl n ↦ rw (h, k, a, n) (walk-BadAddr fuel ring num d.next (put_buf d b))
      ]
    ]
  ]
]
  where
    d : Desc
    d = ring.desc i

get-Corrupted :
    (ring : Ring) (vq : Vqueue) (b : Buf)
    → Panics (Corrupted ring vq) (vqueue_get_avail_buf ring vq b)
unfolding vqueue_get_avail_buf
get-Corrupted ring vq b = elim (Bool-cases (vq.vring_addr == 0)) [
  | inl z ↦ rw z tt
  | inr z ↦
      let up : vq.vring_addr ≢ 0 = ground (arith, z) in
      elim (Bool-cases (ltb (u16 vq.num) (avail_count ring vq))) [
        | inl m ↦ rw (z, m) (refl, (up, inl (ground (arith, m))))
        | inr m ↦ elim (Bool-cases (vq.last_avail_idx == ring.avail_idx_again)) [
          | inl l ↦ rw (z, m, l) tt
          | inr l ↦ elim (Bool-cases (leb vq.num (head_of ring vq))) [
            | inl h ↦ rw (z, m, l, h) (refl, (up, inr (inl (ground (arith, l), ground (arith, h)))))
            | inr h ↦
                rw (z, m, l, h)
                  (settle up _ (walk-BadAddr (rounds b') ring vq.num (head_of ring vq) b'))
          ]
        ]
      ]
]
  where
    b' : Buf
    b' = taken (head_of ring vq) b

    settle :
        vq.vring_addr ≢ 0
        → (o : Option (Outcome (Status × Buf))) → Panics (BadAddr ring vq.num) o
        → Panics (Corrupted ring vq) (or_stuck (advance vq) o)
    settle up none h = tt
    settle up (some (ok (s, c))) h = tt
    settle up (some (panic e)) (p, h) = (p, (up, inr (inr h)))

-- The call panics only on a ring that the other side has corrupted.
pub vqueue_get_avail_buf-Corrupted :
    (ring : Ring) (vq : Vqueue) (b : Buf) {e : Fault}
    → vqueue_get_avail_buf ring vq b ≡ some (panic e)
    → (e ≡ bad_ring) × Corrupted ring vq
vqueue_get_avail_buf-Corrupted ring vq b h =
    subst (Panics (Corrupted ring vq)) h (get-Corrupted ring vq b)
