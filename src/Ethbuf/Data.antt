-- ===== src/Ethbuf/Data.antt =====
-- The data of a packet buffer: `bstgw_ethbuf_precut`, `bstgw_ethbuf_prepend`, and
-- `bstgw_ethbuf_linearize` over a chain of buffers.
use trusted_gateway.Prelude.{
  ℕ, ◌+◌, ◌-◌, ◌%◌, Bool, true, false, List, [], ◌∷◌, Outcome, ok, panic, bad_argument,
  out_of_bounds, ◌>>=◌, if◌then◌else◌, ◌==◌, ltb,
}
use trusted_gateway.Ringbuf.Ops.{copy_in, copy_from}

-- One buffer; `buf` has the `buf_cap` bytes of its array.
pub record Ethbuf : Type 0 where
  pub data_len : ℕ
  pub data_off : ℕ
  pub buf_cap : ℕ
  pub buf : List ℕ

-- The bytes of the packet in one buffer.
abbrev pub payload : Ethbuf → List ℕ
payload eb = copy_from eb.buf eb.data_off eb.data_len

-- Whether a pointer was answered, and the buffer.
unfoldable pub bstgw_ethbuf_precut : Ethbuf → ℕ → Bool × Ethbuf
bstgw_ethbuf_precut eb len =
    if ltb eb.data_len len
    then (false, eb)
    else (true, record eb { data_off = eb.data_off + len; data_len = eb.data_len - len })

unfoldable pub bstgw_ethbuf_prepend : Ethbuf → ℕ → Bool × Ethbuf
bstgw_ethbuf_prepend eb len =
    if ltb eb.data_off len
    then (false, eb)
    else (true, record eb { data_off = eb.data_off - len; data_len = eb.data_len + len })

-- The lengths of a chain, added up in a `size_t` of 32 bits; the head of the chain is apart.
unfoldable pub total_len : List Ethbuf → ℕ
total_len [] = 0
total_len (eb ∷ ebs) = (eb.data_len + total_len ebs) % 0x100000000

-- What is copied from `bstgw_ethbuf_data_ptr(eb, 0)`, which is NULL for a buffer without data, and
-- else asserts that the data begin inside the array.
unfoldable pub chunk : Ethbuf → Outcome (List ℕ)
chunk eb =
    if eb.data_len == 0
    then ok []
    else (if ltb eb.data_off eb.buf_cap then ok (payload eb) else panic bad_argument)

-- The loop of `bstgw_ethbuf_linearize`, from offset `b` of the head's array.
unfoldable pub copy_chain : List Ethbuf → ℕ → List ℕ → Outcome (List ℕ)
unfolding chunk
copy_chain [] b buf = ok buf
copy_chain (eb ∷ ebs) b buf =
    chunk eb >>= λ xs. copy_in buf b xs >>= λ buf'. copy_chain ebs (b + eb.data_len) buf'

-- Whether it answers 0, with the head and the rest of its chain. A head without data has no last
-- byte, and the code copies to address 1; a last byte outside the array fails the assertion of
-- `bstgw_ethbuf_data_ptr`.
unfoldable pub bstgw_ethbuf_linearize :
    Ethbuf → List Ethbuf → Outcome (Bool × (Ethbuf × List Ethbuf))
unfolding total_len copy_chain
bstgw_ethbuf_linearize eb [] = ok (true, (eb, []))
bstgw_ethbuf_linearize eb (next ∷ ebs) =
    let tail_space = (0x100000000 + eb.buf_cap - (eb.data_off + eb.data_len)) % 0x100000000 in
    let rest_buf = total_len (next ∷ ebs) in
    if ltb tail_space rest_buf
    then ok (false, (eb, next ∷ ebs))
    else (if eb.data_len == 0
        then panic out_of_bounds
        else (if ltb (eb.data_off + (eb.data_len - 1)) eb.buf_cap
            then (copy_chain (next ∷ ebs) (eb.data_off + eb.data_len) eb.buf >>= λ buf'. ok (
              true,
              (record eb { buf = buf'; data_len = (eb.data_len + rest_buf) % 0x100000000 }, []),
            ))
            else panic bad_argument))
