-- ===== src/Iovec/Ops.antt =====
-- The copies between a buffer of the trusted side and a vector of buffers that the normal world
-- shares. A buffer of the trusted side is the array that it lies in with an offset, and a copy
-- outside the array is a panic. Results are of 32 bits, in which an error is a negative number; the
-- pointers that the callers pass are not NULL, but a base in the vector may be.
use trusted_gateway.Prelude.{
  ℕ, zero, suc, ◌+◌, ◌-◌, ◌&&◌, ◌||◌, List, [], ◌∷◌, Outcome, ok, panic, bad_argument, ◌>>=◌,
  if◌then◌else◌, ◌==◌, ltb, leb, min, length, get_or,
}
use trusted_gateway.Vqueue.State.{Iov, u32}
use trusted_gateway.Ringbuf.Ops.{copy_in, copy_out}

-- The memory of the normal world, by the address of a byte.
abbrev pub Memory : Type 0
Memory = ℕ → ℕ

abbrev pub err_invalid_args : ℕ
err_invalid_args = 0xfffffff8

-- What `memcpy` reads from the shared memory, and what it leaves there.
unfoldable pub bytes : Memory → ℕ → ℕ → List ℕ
bytes mem a zero = []
bytes mem a (suc n) = mem a ∷ bytes mem (a + 1) n

unfoldable pub poke : Memory → ℕ → List ℕ → Memory
poke mem a xs i = if leb a i && ltb i (a + length xs) then get_or xs (i - a) 0 else mem i

-- The loop of `kern_iovec_to_membuf`: the number of bytes, and the array.
unfoldable pub gather_from : Memory → List Iov → List ℕ → ℕ → ℕ → ℕ → Outcome (ℕ × List ℕ)
gather_from mem [] buf o len copied = ok (copied, buf)
gather_from mem (v ∷ vs) buf o len copied =
    let to_copy = min len v.len in
    let skip = gather_from mem vs buf o len copied in
    if to_copy == 0
    then skip
    else (if v.base == 0
        then ok (err_invalid_args, buf)
        else (copy_in buf o (bytes mem v.base to_copy) >>= λ buf'.
            let rest = gather_from mem vs buf' (o + to_copy) (len - to_copy) (copied + to_copy) in
            if len - to_copy == 0 then ok (copied + to_copy, buf') else rest))

unfoldable pub kern_iovec_to_membuf : Memory → List Iov → List ℕ → ℕ → ℕ → Outcome (ℕ × List ℕ)
unfolding gather_from
kern_iovec_to_membuf mem vs buf o len =
    if (length vs == 0) || (len == 0) then ok (0, buf) else gather_from mem vs buf o len 0

-- The loop of `membuf_to_kern_iovec`: the number of bytes, and the shared memory.
unfoldable pub scatter_from : Memory → List Iov → List ℕ → ℕ → ℕ → ℕ → Outcome (ℕ × Memory)
scatter_from mem [] buf o len copied = ok (copied, mem)
scatter_from mem (v ∷ vs) buf o len copied =
    let to_copy = min len v.len in
    let skip = scatter_from mem vs buf o len copied in
    if to_copy == 0
    then skip
    else (if v.base == 0
        then ok (err_invalid_args, mem)
        else (copy_out buf o to_copy >>= λ xs.
            let mem' = poke mem v.base xs in
            let rest = scatter_from mem' vs buf (o + to_copy) (len - to_copy) (copied + to_copy) in
            if len - to_copy == 0 then ok (copied + to_copy, mem') else rest))

unfoldable pub membuf_to_kern_iovec : Memory → List Iov → List ℕ → ℕ → ℕ → Outcome (ℕ × Memory)
unfolding scatter_from
membuf_to_kern_iovec mem vs buf o len =
    if (length vs == 0) || (len == 0) then ok (0, mem) else scatter_from mem vs buf o len 0

-- `copied + ...`, which adds an error code, too.
abbrev pub add_copied {ℓ} : {A : Type ℓ} → ℕ → ℕ × A → Outcome (ℕ × A)
add_copied copied (n, a) = ok (u32 (copied + n), a)

-- Where in an entry the bytes behind the prefix begin, with `rest_buf` bytes from there on.
abbrev pub start_of : Iov → ℕ → ℕ
start_of v rest_buf = u32 (v.len + 0x100000000 - rest_buf)

-- The first loop of `kern_iovec_to_membuf_skip_begin`, and the copy of the entries that are left.
-- The copy is of `rest_buf` bytes, whatever `len` is.
unfoldable pub gather_skipping : Memory → List Iov → List ℕ → ℕ → ℕ → ℕ → ℕ → Outcome (ℕ × List ℕ)
unfolding kern_iovec_to_membuf
gather_skipping mem [] buf o len prefix_skip skipped =
    if ltb skipped prefix_skip then ok (err_invalid_args, buf) else ok (0, buf)
gather_skipping mem (v ∷ vs) buf o len prefix_skip skipped =
    let reached = u32 (skipped + v.len) in
    let on = gather_skipping mem vs buf o len prefix_skip reached in
    let rest_buf = reached - prefix_skip in
    let others = λ (buf' : List ℕ).
      (if u32 (skipped + start_of v rest_buf) == prefix_skip
        then (kern_iovec_to_membuf mem vs buf' (o + rest_buf) (len - rest_buf)
            >>= add_copied rest_buf)
        else panic bad_argument) in
    if ltb reached prefix_skip
    then on
    else (if rest_buf == 0
        then others buf
        else (if v.base == 0
            then ok (err_invalid_args, buf)
            else (copy_in buf o (bytes mem (v.base + start_of v rest_buf) rest_buf) >>= λ buf'.
                if leb len rest_buf then ok (len, buf') else others buf')))

unfoldable pub kern_iovec_to_membuf_skip_begin :
    Memory → List Iov → List ℕ → ℕ → ℕ → ℕ → Outcome (ℕ × List ℕ)
unfolding gather_skipping
kern_iovec_to_membuf_skip_begin mem vs buf o len prefix_skip =
    if prefix_skip == 0
    then kern_iovec_to_membuf mem vs buf o len
    else (if (length vs == 0) || (len == 0)
        then ok (0, buf)
        else gather_skipping mem vs buf o len prefix_skip 0)

-- The same of `membuf_to_kern_iovec_skip_begin`.
unfoldable pub scatter_skipping : Memory → List Iov → List ℕ → ℕ → ℕ → ℕ → ℕ → Outcome (ℕ × Memory)
unfolding membuf_to_kern_iovec
scatter_skipping mem [] buf o len prefix_skip skipped =
    if ltb skipped prefix_skip then ok (err_invalid_args, mem) else ok (0, mem)
scatter_skipping mem (v ∷ vs) buf o len prefix_skip skipped =
    let reached = u32 (skipped + v.len) in
    let on = scatter_skipping mem vs buf o len prefix_skip reached in
    let rest_buf = reached - prefix_skip in
    let others = λ (mem' : Memory).
      (if u32 (skipped + start_of v rest_buf) == prefix_skip
        then (membuf_to_kern_iovec mem' vs buf (o + rest_buf) (len - rest_buf)
            >>= add_copied rest_buf)
        else panic bad_argument) in
    if ltb reached prefix_skip
    then on
    else (if rest_buf == 0
        then others mem
        else (if v.base == 0
            then ok (err_invalid_args, mem)
            else (copy_out buf o rest_buf >>= λ xs.
                let mem' = poke mem (v.base + start_of v rest_buf) xs in
                if leb len rest_buf then ok (len, mem') else others mem')))

unfoldable pub membuf_to_kern_iovec_skip_begin :
    Memory → List Iov → List ℕ → ℕ → ℕ → ℕ → Outcome (ℕ × Memory)
unfolding scatter_skipping
membuf_to_kern_iovec_skip_begin mem vs buf o len prefix_skip =
    if prefix_skip == 0
    then membuf_to_kern_iovec mem vs buf o len
    else (if (length vs == 0) || (len == 0)
        then ok (0, mem)
        else scatter_skipping mem vs buf o len prefix_skip 0)
