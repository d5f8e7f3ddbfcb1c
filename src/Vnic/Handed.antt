-- ===== src/Vnic/Handed.antt =====
-- What the normal world finds in its buffer.
use trusted_gateway.Prelude.{
  ℕ, ◌+◌, ◌-◌, ◌≤◌, ◌<◌, ◌≡◌, ◌≢◌, ◌⊎◌, inl, inr, refl, ap, sym, ◌∙◌, true, List, ◌∷◌, ◌++◌, ok,
  panic, out_of_bounds, arith, ==_refl, leb, length, Bool-cases, if◌then◌else◌,
}
use mathlib.Core.Path.{ap₂}
use trusted_gateway.Vqueue.State.{Iov}
use trusted_gateway.Ringbuf.Ops.{copy_from}
use trusted_gateway.Ethbuf.Data.{Ethbuf, payload}
use trusted_gateway.Ethbuf.Bytes.{IsValid, length-copy_from, copy_from_append}
use trusted_gateway.Iovec.Ops.{Memory, bytes, poke}
use trusted_gateway.Iovec.Scatter.{
  bytes-poke, bytes-poke_apart, bytes_append, membuf_to_kern_iovec_one,
  membuf_to_kern_iovec_skip_begin_one,
}
use trusted_gateway.Vnic.Frames.{hdr_len}
use trusted_gateway.Vnic.Receive.{vnet_hdr, put_packet}

-- The entry that `virtio_net_receive` fills: it has a base, and room for header and packet.
pub record HasRoom (v : Iov) (eb : Ethbuf) : Type 0 where
  pub based : v.base ≢ 0
  pub fits : hdr_len + eb.data_len ≤ v.len
  pub in_u32 : v.len < 0x100000000
  pub some_data : 0 < eb.data_len
  pub valid : IsValid eb

module _ (mem : Memory) (v : Iov) (vs : List Iov) (eb : Ethbuf) (h : HasRoom v eb) where
  -- How many bytes are copied behind the header, and the memory after both copies.
  copied : ℕ
  copied = v.len - hdr_len

  after_header : Memory
  after_header = poke mem v.base (copy_from vnet_hdr 0 hdr_len)

  after : Memory
  unfolding after_header copied
  after = poke after_header (v.base + hdr_len) (copy_from eb.buf eb.data_off copied)

  put_packet_lem : put_packet mem (v ∷ vs) eb ≡ (
      if leb (eb.data_off + copied) (length eb.buf) then ok (true, after) else panic out_of_bounds)
  unfolding put_packet after after_header copied
  put_packet_lem =
      rw
        (membuf_to_kern_iovec_one mem v vnet_hdr 0 hdr_len h.based (omega arith)
          (omega (arith, h.fits)) (omega arith))
        (rw
          (membuf_to_kern_iovec_skip_begin_one after_header v eb.buf eb.data_off eb.data_len hdr_len
            h.based h.in_u32 (omega arith) h.some_data h.fits)
          (elim (Bool-cases (leb (eb.data_off + copied) (length eb.buf))) [
            | inl b ↦ rw (b, ==_refl eb.data_len) refl
            | inr b ↦ rw b refl
          ]))

  -- An entry that is longer, behind the header, than the packet's array from the packet on: the copy
  -- reads outside of the array, however short the packet is.
  pub put_packet-panic :
      length eb.buf < eb.data_off + (v.len - hdr_len)
      → put_packet mem (v ∷ vs) eb ≡ panic out_of_bounds
  unfolding copied
  put_packet-panic over = put_packet_lem ∙ ground (arith, over)

  -- What the entry holds after the copies.
  entry_after :
      bytes after v.base v.len
      ≡ vnet_hdr
        ++ (payload eb
            ++ copy_from eb.buf (eb.data_off + eb.data_len) (v.len - hdr_len - eb.data_len))
  unfolding after after_header copied copy_from
  entry_after =
      ap (bytes after v.base) {y = hdr_len + (v.len - hdr_len)} (omega (arith, h.fits))
      ∙ bytes_append after v.base hdr_len (v.len - hdr_len)
      ∙ ap₂ ◌++◌
          (bytes-poke_apart after_header v.base hdr_len (v.base + hdr_len)
              (copy_from eb.buf eb.data_off copied) (inl (omega arith))
            ∙ bytes-poke mem v.base (copy_from vnet_hdr 0 hdr_len))
          (ap (bytes after (v.base + hdr_len)) (sym (length-copy_from eb.buf eb.data_off copied))
            ∙ bytes-poke after_header (v.base + hdr_len) (copy_from eb.buf eb.data_off copied)
            ∙ ap (copy_from eb.buf eb.data_off) {y = eb.data_len + (v.len - hdr_len - eb.data_len)}
                (omega (arith, h.fits))
            ∙ copy_from_append eb.buf eb.data_off eb.data_len (v.len - hdr_len - eb.data_len))

  -- The packet reaches the normal world: if the array has as many bytes from the packet on as the
  -- entry has behind the header, the copies succeed, and the entry holds the header, the packet's
  -- bytes in order, and then, up to the entry's end, what lies behind the packet in its array, bytes
  -- of the trusted side's memory that are none of the packet. No other byte of the memory changes.
  pub put_packet-Delivered :
      eb.data_off + (v.len - hdr_len) ≤ length eb.buf
      → (mem' : Memory) × (put_packet mem (v ∷ vs) eb ≡ ok (true, mem'))
        × (bytes mem' v.base v.len
            ≡ vnet_hdr
              ++ (payload eb
                  ++ copy_from eb.buf (eb.data_off + eb.data_len) (v.len - hdr_len - eb.data_len)))
        × ((a n : ℕ) → (a + n ≤ v.base) ⊎ (v.base + v.len ≤ a) → bytes mem' a n ≡ bytes mem a n)
  unfolding copied after after_header
  put_packet-Delivered inside =
      (after, put_packet_lem ∙ ground (arith, inside), entry_after, elsewhere)
    where
      behind :
          (a n : ℕ)
          → (a + n ≤ v.base) ⊎ (v.base + v.len ≤ a)
          → (a + n ≤ v.base + hdr_len)
            ⊎ (v.base + hdr_len + length (copy_from eb.buf eb.data_off copied) ≤ a)
      behind a n (inl p) = inl (omega arith)
      behind a n (inr p) =
          inr (omega (arith, h.fits, length-copy_from eb.buf eb.data_off (v.len - hdr_len)))

      front :
          (a n : ℕ)
          → (a + n ≤ v.base) ⊎ (v.base + v.len ≤ a)
          → (a + n ≤ v.base) ⊎ (v.base + length (copy_from vnet_hdr 0 hdr_len) ≤ a)
      front a n (inl p) = inl p
      front a n (inr p) = inr (omega (arith, h.fits, length-copy_from vnet_hdr 0 hdr_len))

      elsewhere :
          (a n : ℕ) → (a + n ≤ v.base) ⊎ (v.base + v.len ≤ a) → bytes after a n ≡ bytes mem a n
      elsewhere a n side =
          bytes-poke_apart after_header a n (v.base + hdr_len) (copy_from eb.buf eb.data_off copied)
            (behind a n side)
          ∙ bytes-poke_apart mem a n v.base (copy_from vnet_hdr 0 hdr_len) (front a n side)
