-- ===== src/Vqueue/Rounds.antt =====
-- Indices and room: what one call does to the queue's counters, on every branch.
use trusted_gateway.Prelude.{
  ℕ, zero, suc, ◌+◌, ◌≤◌, ◌<◌, ◌≡◌, refl, Bool, true, false, [], ◌∷◌, Option, none, some, Outcome,
  ok, panic, bad_ring, arith, length-append,
}
use trusted_gateway.Vqueue.State.{
  Desc, Ring, Vqueue, Iovs, Buf, Status, no_error, channel_closed, not_enough_buffer, not_valid,
  too_big, u16,
}
use trusted_gateway.Vqueue.Avail.{
  put_iov, put_buf, list_of, walk, rounds, taken, vqueue_get_avail_buf, head_of, avail_count,
}
use trusted_gateway.Vqueue.Chain.{IovsValid, BufValid, iov_of, walk-ne-none}
use trusted_gateway.Vqueue.Corrupt.{Corrupted, vqueue_get_avail_buf-Corrupted}

put_iov-IovsValid : (d : Desc) (l : Iovs) → l.used < l.cnt → IovsValid l → IovsValid (put_iov d l)
unfolding put_iov
put_iov-IovsValid d l h v = omega (arith, length-append {0} l.iovs (iov_of d ∷ []))

put_buf-BufValid :
    (d : Desc) (b : Buf)
    → (list_of d b).used < (list_of d b).cnt
    → BufValid b
    → BufValid (put_buf d b)
unfolding put_buf
put_buf-BufValid d b h v =
    ground (arith, put_iov-IovsValid d b.in_iovs, put_iov-IovsValid d b.out_iovs)

-- The results of the walk itself.
abbrev of_walk : Status → Bool
of_walk no_error = true
of_walk not_valid = true
of_walk too_big = true
of_walk _ = false

-- The entries stay within the room that the caller gave, whatever the walk ends in.
abbrev Within : Option (Outcome (Status × Buf)) → Type 0
Within none = Unit {0}
Within (some (panic e)) = Unit
Within (some (ok (s, b))) = BufValid b × (of_walk s ≡ true)

walk-Within :
    (fuel : ℕ) (ring : Ring) (num i : ℕ) (b : Buf) → BufValid b → Within (walk fuel ring num i b)
unfolding walk
walk-Within zero ring num i b v = tt
walk-Within (suc fuel) ring num i b v = ground (
  arith,
  put_buf-BufValid (ring.desc i) b,
  walk-Within fuel ring num (ring.desc i).next (put_buf (ring.desc i) b),
)

-- The ring as the second read of the available index shows it.
abbrev pub seen_again : Ring → Ring
seen_again ring = record ring { avail_idx = ring.avail_idx_again }

-- What each result says of the queue and of the buffer.
abbrev pub Counted : Ring → Vqueue → Buf → Status × Buf × Vqueue → Type 0
Counted ring vq b (channel_closed, b', vq') = (vq.vring_addr ≡ 0) × (b' ≡ b) × (vq' ≡ vq)
Counted ring vq b (not_enough_buffer, b', vq') =
    (avail_count (seen_again ring) vq ≡ 0)
    × (avail_count ring vq ≤ u16 vq.num)
    × (b' ≡ b)
    × (vq' ≡ vq)
Counted ring vq b (s, b', vq') =
    (avail_count (seen_again ring) vq' + 1 ≡ avail_count (seen_again ring) vq)
    × (avail_count ring vq ≤ u16 vq.num)
    × (head_of ring vq < vq.num)
    × BufValid b'

abbrev pub Accounted : Ring → Vqueue → Buf → Option (Outcome (Status × Buf × Vqueue)) → Type 0
Accounted ring vq b none = ⊥
Accounted ring vq b (some (panic e)) = (e ≡ bad_ring) × Corrupted ring vq
Accounted ring vq b (some (ok r)) = Counted ring vq b r

abbrev IfReturns : Ring → Vqueue → Buf → Option (Outcome (Status × Buf × Vqueue)) → Type 0
IfReturns ring vq b none = ⊥
IfReturns ring vq b (some (panic e)) = Unit
IfReturns ring vq b (some (ok r)) = Counted ring vq b r

abbrev IsInU16 : ℕ → Type 0
IsInU16 n = n < 0x10000

get-IfReturns :
    (ring : Ring) (vq : Vqueue) (b : Buf)
    → IsInU16 ring.avail_idx_again
    → IsInU16 vq.last_avail_idx
    → IfReturns ring vq b (vqueue_get_avail_buf ring vq b)
unfolding vqueue_get_avail_buf
get-IfReturns ring vq b p q = ground (
  arith,
  walk-Within (rounds b') ring vq.num (head_of ring vq) b',
  walk-ne-none (rounds b') ring vq.num (head_of ring vq) b',
)
  where
    b' : Buf
    b' = taken (head_of ring vq) b

-- One call of `vqueue_get_avail_buf`, with 16-bit indices. It ends. A closed channel, and a ring that
-- is empty at the second read of the available index, change nothing. Every other call that returns
-- has taken exactly one buffer off the ring, with a head inside the table, no more entries than the
-- caller gave room for, and no more buffers available at the first read of the index than the ring
-- holds. The call panics only on a queue that is set up and whose ring the other side has corrupted:
-- the first read of the index is further ahead than the ring is long, or the head that is next is
-- outside the table, or the table has a descriptor whose address `paddr_t` cannot hold or that
-- changes between two reads.
pub vqueue_get_avail_buf-Accounted :
    (ring : Ring) (vq : Vqueue) (b : Buf)
    → IsInU16 ring.avail_idx_again
    → IsInU16 vq.last_avail_idx
    → Accounted ring vq b (vqueue_get_avail_buf ring vq b)
vqueue_get_avail_buf-Accounted ring vq b p q =
    settle (vqueue_get_avail_buf ring vq b) refl (get-IfReturns ring vq b p q)
  where
    settle :
        (o : Option (Outcome (Status × Buf × Vqueue)))
        → vqueue_get_avail_buf ring vq b ≡ o
        → IfReturns ring vq b o
        → Accounted ring vq b o
    settle none e h = h
    settle (some (ok r)) e h = h
    settle (some (panic x)) e h = vqueue_get_avail_buf-Corrupted ring vq b e
