-- ===== src/Ringbuf/Ops.antt =====
-- `sw_buff_t` and its functions. `abort` is `panic bad_argument`.
use trusted_gateway.Prelude.{
  ℕ, zero, suc, ◌+◌, ◌-◌, ◌%◌, Bool, false, not, ◌&&◌, ◌||◌, List, [], ◌∷◌, ◌++◌, Outcome, ok,
  panic, bad_argument, out_of_bounds, ◌>>=◌, if◌then◌else◌, ◌==◌, ltb, leb, length, set, get_or,
  take, drop,
}

-- `sizeof(buff->buffer)`
abbrev pub size : ℕ
size = 2048

pub record SwBuff : Type 0 where
  pub buffer : List ℕ
  pub head : ℕ
  pub tail : ℕ
  pub full : Bool

abbrev pub zeros : ℕ → List ℕ
zeros zero = []
zeros (suc n) = 0 ∷ zeros n

unfoldable pub init_sw_buffer : SwBuff → SwBuff
init_sw_buffer b = record b { head = 0; tail = 0; full = false }

-- The difference `sizeof(buff->buffer) - i` of 32 bits.
abbrev pub till_end : ℕ → ℕ
till_end i = (0x100000000 + size - i) % 0x100000000

unfoldable pub spaceleft_sw_buffer : SwBuff → ℕ
spaceleft_sw_buffer b =
    if b.head == b.tail
    then (if b.full then 0 else size)
    else (if ltb b.tail b.head then b.head - b.tail else (till_end b.tail + b.head) % 0x100000000)

unfoldable pub dataleft_sw_buffer : SwBuff → ℕ
dataleft_sw_buffer b =
    if b.head == b.tail
    then (if b.full then size else 0)
    else (if ltb b.head b.tail then b.tail - b.head else (till_end b.head + b.tail) % 0x100000000)

-- `memcpy` into the buffer, byte by byte.
unfoldable pub copy_to : List ℕ → ℕ → List ℕ → List ℕ
copy_to buf o [] = buf
copy_to buf o (x ∷ xs) = copy_to (set buf o x) (o + 1) xs

unfoldable pub copy_in : List ℕ → ℕ → List ℕ → Outcome (List ℕ)
unfolding copy_to
copy_in buf o xs =
    if leb (o + length xs) (length buf) then ok (copy_to buf o xs) else panic out_of_bounds

-- `memcpy` out of the buffer.
unfoldable pub copy_from : List ℕ → ℕ → ℕ → List ℕ
copy_from buf o zero = []
copy_from buf o (suc n) = get_or buf o 0 ∷ copy_from buf (o + 1) n

unfoldable pub copy_out : List ℕ → ℕ → ℕ → Outcome (List ℕ)
unfolding copy_from
copy_out buf o n = if leb (o + n) (length buf) then ok (copy_from buf o n) else panic out_of_bounds

-- The one or two copies of `put_sw_buffer`.
unfoldable pub put_copies : SwBuff → ℕ → List ℕ → Outcome (List ℕ)
unfolding copy_in
put_copies b sent xs =
    if ltb b.tail b.head || leb sent (till_end b.tail)
    then copy_in b.buffer b.tail (take sent xs)
    else (copy_in b.buffer b.tail (take (till_end b.tail) xs) >>= λ buf.
        copy_in buf 0 (take (sent - till_end b.tail) (drop (till_end b.tail) xs)))

-- How many bytes `put_sw_buffer` takes, and the buffer after it.
unfoldable pub put_sw_buffer : SwBuff → List ℕ → Outcome (ℕ × SwBuff)
unfolding put_copies
put_sw_buffer b xs =
    let space = spaceleft_sw_buffer b in
    let over = ltb space (length xs) in
    let sent = if over then space else length xs in
    if b.full || ltb size space
    then panic bad_argument
    else (put_copies b sent xs >>= λ buf.
        ok (sent, record b { buffer = buf; tail = (b.tail + sent) % size; full = over }))

-- The one or two copies of `get_sw_buffer`.
unfoldable pub get_copies : SwBuff → ℕ → Outcome (List ℕ)
unfolding copy_out
get_copies b n =
    if ltb b.head b.tail || leb n (till_end b.head)
    then copy_out b.buffer b.head n
    else (copy_out b.buffer b.head (till_end b.head) >>= λ xs.
        copy_out b.buffer 0 (n - till_end b.head) >>= λ ys. ok (xs ++ ys))

-- The bytes that `get_sw_buffer` reads, and the buffer after it.
unfoldable pub get_sw_buffer : SwBuff → ℕ → Outcome (List ℕ × SwBuff)
unfolding get_copies
get_sw_buffer b len =
    let left = dataleft_sw_buffer b in
    let n = if ltb left len then left else len in
    if ((b.head == b.tail) && not b.full) || ltb size left
    then panic bad_argument
    else (get_copies b n >>= λ xs.
        ok (xs, record b { head = (b.head + n) % size; full = if n == 0 then b.full else false }))
