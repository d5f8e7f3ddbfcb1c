-- ===== src/Iovec/Skip.antt =====
-- What the copies out of the normal world's buffers read behind a prefix.
use trusted_gateway.Prelude.{
  ℕ, zero, suc, ◌+◌, ◌-◌, ◌≤◌, ◌<◌, ◌≡◌, ◌≢◌, inl, inr, refl, ap, sym, ◌∙◌, true, false, List, [],
  ◌∷◌, ◌++◌, append-nil, Outcome, ok, panic, out_of_bounds, arith, ◌==◌, ==→eq, length, drop,
  take_all, ltb, ltb→lt, leb, leb→le, ◌>>=◌, Bool-cases,
}
use mathlib.Core.Path.{ap₂}
use trusted_gateway.Vqueue.State.{Iov, u32}
use trusted_gateway.Ringbuf.Ops.{copy_to, copy_in}
use trusted_gateway.Ringbuf.Copies.{copy_in_ok, length-copy_to}
use trusted_gateway.Iovec.Ops.{
  Memory, bytes, kern_iovec_to_membuf, gather_skipping, start_of, kern_iovec_to_membuf_skip_begin,
  add_copied,
}
use trusted_gateway.Iovec.Gather.{
  gathered, total, Based, length-bytes, length-gathered, drop-bytes, copy_to_append,
  kern_iovec_to_membuf_lem,
}

drop-bytes_all :
    (mem : Memory) (a k m : ℕ) (ys : List ℕ)
    → m ≤ k
    → drop k (bytes mem a m ++ ys) ≡ drop (k - m) ys
unfolding bytes
drop-bytes_all mem a k zero ys h = ap (λ j. drop j ys) (omega arith)
drop-bytes_all mem a zero (suc m) ys h = absurd (omega arith)
drop-bytes_all mem a (suc k) (suc m) ys h =
    drop-bytes_all mem (a + 1) k m ys (omega arith) ∙ ap (λ j. drop j ys) {x = k - m} (omega arith)

-- The copy of the entries behind the one in which the prefix ends.
others_lem :
    (mem : Memory) (vs : List Iov) (buf : List ℕ) (o len rest_buf : ℕ)
    → Based vs
    → o + len ≤ length buf
    → rest_buf ≤ len
    → total vs ≤ len - rest_buf
    → rest_buf + total vs < 0x100000000
    → (kern_iovec_to_membuf mem vs buf (o + rest_buf) (len - rest_buf) >>= add_copied rest_buf)
      ≡ ok (rest_buf + total vs, copy_to buf (o + rest_buf) (gathered mem vs))
others_lem mem vs buf o len rest_buf based room few fits small =
    rw (kern_iovec_to_membuf_lem mem vs buf (o + rest_buf) (len - rest_buf) based (omega arith)) (
      ap₂ (λ n xs. ok (n, copy_to buf (o + rest_buf) xs)) (omega arith)
        (take_all (len - rest_buf) (gathered mem vs) (omega (arith, length-gathered mem vs))))

gathered_none : (mem : Memory) (vs : List Iov) → total vs ≡ 0 → gathered mem vs ≡ []
gathered_none mem vs e = length-zero (gathered mem vs) (length-gathered mem vs ∙ e)
  where
    length-zero : (xs : List ℕ) → length xs ≡ 0 → xs ≡ []
    length-zero [] h = refl
    length-zero (x ∷ xs) h = absurd (omega (arith, h))

abbrev answer : ℕ → List ℕ → Outcome (ℕ × List ℕ)
answer n xs = ok (n, xs)

-- The loop, while it is still in the prefix.
gather_skipping_lem :
    (mem : Memory) (vs : List Iov) (buf : List ℕ) (o len prefix_skip skipped : ℕ)
    → Based vs
    → o + len ≤ length buf
    → skipped < prefix_skip
    → skipped + total vs < 0x100000000
    → prefix_skip ≤ skipped + total vs
    → skipped + total vs ≤ prefix_skip + len
    → gather_skipping mem vs buf o len prefix_skip skipped
      ≡ ok (
        skipped + total vs - prefix_skip,
        copy_to buf o (drop (prefix_skip - skipped) (gathered mem vs)),
      )
unfolding gather_skipping copy_to bytes
gather_skipping_lem mem [] buf o len prefix_skip skipped based room inside small enough fits =
    absurd (omega arith)
gather_skipping_lem mem (v ∷ vs) buf o len prefix_skip skipped (here, based) room inside small
      enough fits =
    elim (Bool-cases (ltb reached prefix_skip)) [
      | inl e ↦ rw e (
          gather_skipping_lem mem vs buf o len prefix_skip reached based room
            (ltb→lt reached prefix_skip e) (omega arith) (omega arith) (omega arith)
          ∙ ap₂ (λ n xs. ok (n, copy_to buf o xs)) (omega arith)
              (ap (λ j. drop j (gathered mem vs)) (omega arith)
                ∙ sym (
                    drop-bytes_all mem v.base (prefix_skip - skipped) v.len (gathered mem vs)
                      (omega (arith, ltb→lt reached prefix_skip e)))))
      | inr e ↦
          let reaches : prefix_skip ≤ skipped + v.len = ground (arith, e) in
          let start : start_of v rest_buf ≡ k = omega arith in
          let ends : (u32 (skipped + k) == prefix_skip) ≡ true = ground arith in
          rw e (
            rw plain (elim (Bool-cases (rest_buf == 0)) [
              | inl z ↦
                  let none_left : rest_buf ≡ 0 = ==→eq rest_buf 0 z in
                  rw (z, start, ends)
                    (others_lem mem vs buf o len rest_buf based room (omega arith) (omega arith)
                        (omega arith)
                      ∙ ap₂ (λ n xs. ok (rest_buf + total vs, copy_to buf n xs)) {y = o}
                          {u = gathered mem vs} (omega arith)
                          (ap (λ n. bytes mem (v.base + k) n ++ gathered mem vs) (sym none_left))
                      ∙ behind reaches)
              | inr z ↦
                  rw (z, based_here z, start)
                    (rw (copy_in_ok buf o read (omega (arith, length-read)))
                      (elim (Bool-cases (leb len rest_buf)) [
                        | inl full ↦
                            let last : len ≡ rest_buf = omega (arith, leb→le len rest_buf full) in
                            rw full (
                              ap₂ (λ n xs. ok (n, copy_to buf o xs)) {y = rest_buf + total vs}
                                (omega arith)
                                (sym (append-nil read)
                                  ∙ ap (λ ys. read ++ ys)
                                      (sym (gathered_none mem vs (omega arith))))
                              ∙ behind reaches)
                        | inr full ↦
                            let few : rest_buf ≤ len = ground (arith, full) in
                            rw (full, ends)
                              (others_lem mem vs (copy_to buf o read) o len rest_buf based
                                  (omega (arith, length-copy_to buf o read)) few (omega arith)
                                  (omega arith)
                                ∙ ap (λ xs. ok (rest_buf + total vs, xs))
                                    (ap
                                        (λ j.
                                          copy_to (copy_to buf o read) (o + j) (gathered mem vs))
                                        (sym length-read)
                                      ∙ sym (copy_to_append buf o read (gathered mem vs)))
                                ∙ behind reaches)
                      ]))
            ]))
    ]
  where
    reached : ℕ
    reached = u32 (skipped + v.len)

    plain : u32 (skipped + v.len) ≡ skipped + v.len
    plain = omega arith

    rest_buf : ℕ
    rest_buf = skipped + v.len - prefix_skip

    k : ℕ
    k = prefix_skip - skipped

    read : List ℕ
    read = bytes mem (v.base + k) rest_buf

    length-read : length read ≡ rest_buf
    length-read = length-bytes mem (v.base + k) rest_buf

    behind :
        prefix_skip ≤ skipped + v.len
        → answer (rest_buf + total vs) (copy_to buf o (read ++ gathered mem vs))
          ≡ answer
              (skipped + total (v ∷ vs) - prefix_skip)
              (copy_to buf o (drop k (gathered mem (v ∷ vs))))
    behind reaches =
        ap₂ (λ n xs. ok (n, copy_to buf o xs)) (omega arith)
          (ap (λ n. bytes mem (v.base + k) n ++ gathered mem vs) {x = rest_buf} (omega arith)
            ∙ sym (drop-bytes mem v.base k v.len (gathered mem vs) (omega arith)))

    based_here : (rest_buf == 0) ≡ false → (v.base == 0) ≡ false
    based_here z = ground (arith, here, z)

-- If the lengths of the entries do not add up to more than 32 bits hold, and the buffer has room for
-- all bytes behind the prefix, these are copied, in order, and nothing else of the array changes.
pub kern_iovec_to_membuf_skip_begin_lem :
    (mem : Memory) (vs : List Iov) (buf : List ℕ) (o len prefix_skip : ℕ)
    → Based vs
    → o + len ≤ length buf
    → 0 < len
    → total vs < 0x100000000
    → prefix_skip ≤ total vs
    → total vs ≤ prefix_skip + len
    → kern_iovec_to_membuf_skip_begin mem vs buf o len prefix_skip
      ≡ ok (total vs - prefix_skip, copy_to buf o (drop prefix_skip (gathered mem vs)))
unfolding kern_iovec_to_membuf_skip_begin
kern_iovec_to_membuf_skip_begin_lem mem vs buf o len zero based room some small enough fits =
    kern_iovec_to_membuf_lem mem vs buf o len based room
    ∙ ap₂ (λ n xs. answer n (copy_to buf o xs)) (omega arith)
        (take_all len (gathered mem vs) (omega (arith, length-gathered mem vs)))
kern_iovec_to_membuf_skip_begin_lem mem [] buf o len (suc p) based room some small enough fits =
    absurd (omega arith)
kern_iovec_to_membuf_skip_begin_lem mem (v ∷ vs) buf o len (suc p) based room some small enough
      fits =
    rw (begins, nonempty, wanted)
      (gather_skipping_lem mem (v ∷ vs) buf o len (suc p) 0 based room (omega arith) (omega arith)
          (omega arith) (omega arith)
        ∙ ap₂ (λ n k. answer n (copy_to buf o (drop k (gathered mem (v ∷ vs))))) {v = suc p}
            (omega arith) (omega arith))
  where
    begins : (suc p == 0) ≡ false
    begins = ground arith

    nonempty : (length (v ∷ vs) == 0) ≡ false
    nonempty = ground arith

    wanted : (len == 0) ≡ false
    wanted = ground arith

-- The first copy is as long as the first entry is behind the prefix: where the array has no room for
-- that many bytes the call writes outside of it, however few bytes the caller has asked for.
pub kern_iovec_to_membuf_skip_begin-panic :
    (mem : Memory) (v : Iov) (vs : List Iov) (buf : List ℕ) (o len prefix_skip : ℕ)
    → v.base ≢ 0
    → v.len < 0x100000000
    → 0 < prefix_skip
    → prefix_skip < v.len
    → 0 < len
    → length buf < o + (v.len - prefix_skip)
    → kern_iovec_to_membuf_skip_begin mem (v ∷ vs) buf o len prefix_skip ≡ panic out_of_bounds
unfolding kern_iovec_to_membuf_skip_begin gather_skipping copy_in
kern_iovec_to_membuf_skip_begin-panic mem v vs buf o len prefix_skip based small begins inside some
      over =
    ground (
      arith,
      length-bytes mem (v.base + start_of v (u32 (0 + v.len) - prefix_skip))
          (u32 (0 + v.len) - prefix_skip),
    )
