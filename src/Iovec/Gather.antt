-- ===== src/Iovec/Gather.antt =====
-- What the copies out of the normal world's buffers read.
use trusted_gateway.Prelude.{
  ℕ, zero, suc, ◌+◌, ◌-◌, ◌≤◌, ◌<◌, ◌≡◌, ◌≢◌, ◌⊎◌, inl, inr, refl, ap, sym, ◌∙◌, false, List, [],
  ◌∷◌, ◌++◌, append-nil, ok, arith, ◌==◌, ==→eq, min, length, set, take, drop, length-append,
  Bool-cases,
}
use mathlib.Core.Path.{ap₂}
use trusted_gateway.Vqueue.State.{Iov}
use trusted_gateway.Ringbuf.Ops.{copy_to}
use trusted_gateway.Ringbuf.Copies.{copy_in_ok, take_nil, length-copy_to}
use trusted_gateway.Iovec.Ops.{Memory, bytes, gather_from, kern_iovec_to_membuf}

-- The bytes of a vector, in order, and how many there are.
abbrev pub gathered : Memory → List Iov → List ℕ
gathered mem [] = []
gathered mem (v ∷ vs) = bytes mem v.base v.len ++ gathered mem vs

abbrev pub total : List Iov → ℕ
total [] = 0
total (v ∷ vs) = v.len + total vs

-- Each entry that has a length has a base, as it has after `vqueue_map_iovs`.
abbrev pub Based : List Iov → Type 0
Based [] = Unit {0}
Based (v ∷ vs) = ((v.len ≡ 0) ⊎ (v.base ≢ 0)) × Based vs

pub length-bytes : (mem : Memory) (a n : ℕ) → length (bytes mem a n) ≡ n
unfolding bytes
length-bytes mem a zero = refl
length-bytes mem a (suc n) = ap suc (length-bytes mem (a + 1) n)

pub length-gathered : (mem : Memory) (vs : List Iov) → length (gathered mem vs) ≡ total vs
length-gathered mem [] = refl
length-gathered mem (v ∷ vs) = omega (
  arith,
  length-append {0} (bytes mem v.base v.len) (gathered mem vs),
  length-bytes mem v.base v.len,
  length-gathered mem vs,
)

pub take-bytes :
    (mem : Memory) (a n m : ℕ) (ys : List ℕ)
    → take n (bytes mem a m ++ ys) ≡ bytes mem a (min n m) ++ take (n - m) ys
unfolding bytes
take-bytes mem a zero m ys =
    ap₂ (λ j k. bytes mem a j ++ take k ys) {x = 0} {u = 0} (omega arith) (omega arith)
take-bytes mem a (suc n) zero ys =
    ap₂ (λ j k. bytes mem a j ++ take k ys) {x = 0} {u = suc n} (omega arith) (omega arith)
take-bytes mem a (suc n) (suc m) ys =
    ap (λ xs. mem a ∷ xs) (take-bytes mem (a + 1) n m ys)
    ∙ ap₂ (λ j k. bytes mem a j ++ take k ys) {x = suc (min n m)} {u = n - m} (omega arith)
        (omega arith)

pub drop-bytes :
    (mem : Memory) (a k m : ℕ) (ys : List ℕ)
    → k ≤ m
    → drop k (bytes mem a m ++ ys) ≡ bytes mem (a + k) (m - k) ++ ys
unfolding bytes
drop-bytes mem a zero m ys h = ap₂ (λ j n. bytes mem j n ++ ys) {x = a} (omega arith) (omega arith)
drop-bytes mem a (suc k) zero ys h = absurd (omega arith)
drop-bytes mem a (suc k) (suc m) ys h =
    drop-bytes mem (a + 1) k m ys (omega arith)
    ∙ ap₂ (λ j n. bytes mem j n ++ ys) {x = a + 1 + k} {u = m - k} (omega arith) (omega arith)

pub copy_to_append :
    (buf : List ℕ) (o : ℕ) (xs ys : List ℕ)
    → copy_to buf o (xs ++ ys) ≡ copy_to (copy_to buf o xs) (o + length xs) ys
unfolding copy_to
copy_to_append buf o [] ys = ap (λ j. copy_to buf j ys) (omega arith)
copy_to_append buf o (x ∷ xs) ys =
    copy_to_append (set buf o x) (o + 1) xs ys
    ∙ ap (λ j. copy_to (copy_to (set buf o x) (o + 1) xs) j ys) (omega arith)

-- The loop, which starts with some bytes to copy and room for them: it copies the first `len` bytes
-- of the vector, or all.
pub gather_from_lem :
    (mem : Memory) (vs : List Iov) (buf : List ℕ) (o len copied : ℕ)
    → Based vs
    → 0 < len
    → o + len ≤ length buf
    → gather_from mem vs buf o len copied
      ≡ ok (copied + min len (total vs), copy_to buf o (take len (gathered mem vs)))
unfolding gather_from copy_to bytes
gather_from_lem mem [] buf o len copied based some room =
    ap₂ (λ n xs. ok (n, copy_to buf o xs)) {x = copied} (omega arith) (sym (take_nil len))
gather_from_lem mem (v ∷ vs) buf o len copied (here, based) some room = elim (Bool-cases (t == 0)) [
  | inl z ↦ rw z (
      gather_from_lem mem vs buf o len copied based some room
      ∙ ap₂ (λ n xs. ok (n, copy_to buf o xs)) (omega (arith, ==→eq t 0 z))
          (sym (
            split
            ∙ ap₂ (λ j k. bytes mem v.base j ++ take k (gathered mem vs)) {y = 0} {v = len}
                (==→eq t 0 z) (omega (arith, ==→eq t 0 z)))))
  | inr z ↦ rw z (
      rw (based_here z) (
        rw (copy_in_ok buf o (bytes mem v.base t) (omega (arith, length-bytes mem v.base t)))
          (elim (Bool-cases (len - t == 0)) [
            | inl e ↦ rw e (
                ap₂ (λ n xs. ok (n, copy_to buf o xs)) {v = take len (gathered mem (v ∷ vs))}
                  (omega (arith, ==→eq (len - t) 0 e))
                  (sym (
                    split
                    ∙ ap (λ k. bytes mem v.base t ++ take k (gathered mem vs)) {y = 0}
                        (omega (arith, ==→eq (len - t) 0 e))
                    ∙ append-nil (bytes mem v.base t))))
            | inr e ↦
                let rest : 0 < len - t = ground (arith, e) in
                rw e (
                  gather_from_lem mem vs (copy_to buf o (bytes mem v.base t)) (o + t) (len - t)
                    (copied + t) based rest
                    (omega (arith, length-copy_to buf o (bytes mem v.base t)))
                  ∙ ap₂ (λ n xs. ok (n, xs)) (omega arith)
                      (ap₂
                          (λ j k.
                            copy_to (copy_to buf o (bytes mem v.base t)) (o + j)
                              (take k (gathered mem vs)))
                          {v = len - v.len} (sym (length-bytes mem v.base t)) (omega arith)
                        ∙ sym (
                            copy_to_append buf o (bytes mem v.base t)
                              (take (len - v.len) (gathered mem vs)))
                        ∙ ap (copy_to buf o) (sym split)))
          ])))
]
  where
    t : ℕ
    t = min len v.len

    split :
        take len (bytes mem v.base v.len ++ gathered mem vs)
        ≡ bytes mem v.base t ++ take (len - v.len) (gathered mem vs)
    split = take-bytes mem v.base len v.len (gathered mem vs)

    based_here : (t == 0) ≡ false → (v.base == 0) ≡ false
    based_here z = ground (arith, here, z)

-- Copying a vector whose entries have bases into a buffer with room for `len` bytes returns; it
-- copies the first `len` bytes of the vector, in order, or all if there are fewer, changes nothing
-- else of the array, and answers their number.
pub kern_iovec_to_membuf_lem :
    (mem : Memory) (vs : List Iov) (buf : List ℕ) (o len : ℕ)
    → Based vs
    → o + len ≤ length buf
    → kern_iovec_to_membuf mem vs buf o len
      ≡ ok (min len (total vs), copy_to buf o (take len (gathered mem vs)))
unfolding kern_iovec_to_membuf copy_to
kern_iovec_to_membuf_lem mem [] buf o len based room =
    ap₂ (λ n xs. ok (n, copy_to buf o xs)) {x = 0} (omega arith) (sym (take_nil len))
kern_iovec_to_membuf_lem mem (v ∷ vs) buf o len based room = elim (Bool-cases (len == 0)) [
  | inl z ↦
      rw (nonempty, z)
        (ap₂ (λ n xs. ok (n, copy_to buf o xs)) {u = []} (omega (arith, ==→eq len 0 z))
          (ap (λ k. take k (gathered mem (v ∷ vs))) (sym (==→eq len 0 z))))
  | inr z ↦
      rw (nonempty, z)
        (gather_from_lem mem (v ∷ vs) buf o len 0 based (ground (arith, z)) room
          ∙ ap (λ n. ok (n, copy_to buf o (take len (gathered mem (v ∷ vs))))) (omega arith))
]
  where
    nonempty : (length (v ∷ vs) == 0) ≡ false
    nonempty = ground arith
