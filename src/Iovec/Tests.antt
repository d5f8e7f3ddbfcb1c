-- ===== src/Iovec/Tests.antt =====
-- Copies out of a memory whose bytes are their addresses.
use trusted_gateway.Prelude.{ℕ, ◌≡◌, refl, List, [], ◌∷◌, ok, arith, drop, inr}
use trusted_gateway.Vqueue.State.{Iov}
use trusted_gateway.Ringbuf.Ops.{copy_to, copy_in}
use trusted_gateway.Iovec.Ops.{Memory, bytes, kern_iovec_to_membuf, kern_iovec_to_membuf_skip_begin}
use trusted_gateway.Iovec.Gather.{gathered}
use trusted_gateway.Iovec.Skip.{kern_iovec_to_membuf_skip_begin_lem}

abbrev counting : Memory
counting a = a

abbrev part : ℕ → ℕ → Iov
part a n = record { base = a; len = n; phys = 0 }

abbrev two_parts : List Iov
two_parts = part 10 2 ∷ part 20 3 ∷ []

abbrev eight : List ℕ
eight = 0 ∷ 0 ∷ 0 ∷ 0 ∷ 0 ∷ 0 ∷ 0 ∷ 0 ∷ []

gather_four :
    kern_iovec_to_membuf counting two_parts eight 1 4
    ≡ ok (4, 0 ∷ 10 ∷ 11 ∷ 20 ∷ 21 ∷ 0 ∷ 0 ∷ 0 ∷ [])
unfolding kern_iovec_to_membuf bytes copy_in
gather_four = refl

gather_behind :
    kern_iovec_to_membuf_skip_begin counting two_parts eight 0 4 1
    ≡ ok (4, 11 ∷ 20 ∷ 21 ∷ 22 ∷ 0 ∷ 0 ∷ 0 ∷ 0 ∷ [])
unfolding kern_iovec_to_membuf_skip_begin bytes copy_in
gather_behind = refl

kern_iovec_to_membuf_skip_begin_lem_example :
    kern_iovec_to_membuf_skip_begin counting two_parts eight 0 4 1
    ≡ ok (4, copy_to eight 0 (drop 1 (gathered counting two_parts)))
kern_iovec_to_membuf_skip_begin_lem_example =
    kern_iovec_to_membuf_skip_begin_lem counting two_parts eight 0 4 1
      (inr (omega arith), (inr (omega arith), tt)) (omega arith) (omega arith) (omega arith)
      (omega arith) (omega arith)
