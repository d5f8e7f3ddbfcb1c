-- ===== src/Virtio/Emu.antt =====
-- What the emulation callback answers for a trapped access to the device.
use trusted_gateway.Prelude.{
  ℕ, ◌+◌, ◌*◌, ◌%◌, ◌<◌, ◌≡◌, ◌⊎◌, inl, inr, refl, subst, sym, Bool, true, false, not, ◌||◌,
  Outcome, ok, panic, ◌==◌, arith, Bool-cases, Outcome-cases,
}
use trusted_gateway.Prelude.Bits.{bit, bit_and-pow}
use trusted_gateway.Vqueue.Setup.{Mmu}
use trusted_gateway.Virtio.State.{Mmio, has}
use trusted_gateway.Virtio.Net.{virtio_net_get_config}
use trusted_gateway.Virtio.Device.{virtio_config_read}
use trusted_gateway.Virtio.Mmio.{
  EmuState, write, read_before, read_after, vnic_handle_mmio_write, vnic_handle_mmio_read,
  vnic_emu_check, widen,
}

has-bit_7 : (a : ℕ) → has a 0x80 ≡ not (bit 7 a == 0)
has-bit_7 a = ground (arith, bit_and-pow 7 a)

has-bit_15 : (a : ℕ) → has a 0x8000 ≡ not (bit 15 a == 0)
has-bit_15 a = ground (arith, bit_and-pow 15 a)

-- A number of `w` bits, given by `half ≡ 2 ^ (w - 1)`, read as signed and moved up by `half`.
abbrev pub biased : ℕ → ℕ → ℕ
biased half n = (n + half) % (2 * half)

-- A sign-extended read of one byte or two has, as a signed number of 32 bits, the value that the
-- register's lowest byte or two have as a signed number of 8 or 16 bits.
pub widen_lem :
    (v : ℕ)
    → (biased 0x80000000 (widen 1 true v) + 0x80 ≡ biased 0x80 v + 0x80000000)
      × (biased 0x80000000 (widen 2 true v) + 0x8000 ≡ biased 0x8000 v + 0x80000000)
unfolding widen
widen_lem v = (ground (arith, has-bit_7 (v % 256)), ground (arith, has-bit_15 (v % 65536)))

-- The value `v` that a read of the width given by `half` makes of the register's value `r`: its
-- lowest bits, or, sign-extended, the number of 32 bits with the same value as a signed number.
abbrev pub Narrowed : Bool → ℕ → ℕ → ℕ → Type 0
Narrowed false half r v = v ≡ r % (2 * half)
Narrowed true half r v =
    (v < 0x100000000) × (biased 0x80000000 v + half ≡ biased half r + 0x80000000)

abbrev pub Widened : ℕ → Bool → ℕ → ℕ → Type 0
Widened size sign r v =
    ((size ≡ 1) × Narrowed sign 0x80 r v)
    ⊎ ((size ≡ 2) × Narrowed sign 0x8000 r v)
    ⊎ ((size ≡ 4) × (v ≡ r))

widen_byte : (sign : Bool) (r : ℕ) → Narrowed sign 0x80 r (widen 1 sign r)
unfolding widen
widen_byte false r = refl
widen_byte true r = (ground arith, (widen_lem r).0)

widen_half : (sign : Bool) (r : ℕ) → Narrowed sign 0x8000 r (widen 2 sign r)
unfolding widen
widen_half false r = refl
widen_half true r = (ground arith, (widen_lem r).1)

widen-Widened :
    (size : ℕ) (sign : Bool) (r : ℕ)
    → (size == 1 || size == 2 || size == 4) ≡ true
    → Widened size sign r (widen size sign r)
widen-Widened size sign r h = elim (Bool-cases (size == 1)) [
  | inl a ↦
      let e : size ≡ 1 = ground (arith, a) in
      inl (e, subst (λ n. Narrowed sign 0x80 r (widen n sign r)) (sym e) (widen_byte sign r))
  | inr a ↦ elim (Bool-cases (size == 2)) [
    | inl b ↦
        let e : size ≡ 2 = ground (arith, b) in
        inr (
          inl (e, subst (λ n. Narrowed sign 0x8000 r (widen n sign r)) (sym e) (widen_half sign r)))
    | inr b ↦ inr (inr (ground (arith, a, b, h), unfold widen in rw (a, b) refl))
  ]
]

-- Two states that differ at most in the copy of the configuration that is kept for reads.
abbrev pub SameButConfig : Mmio → Mmio → Type 0
SameButConfig m m' = m' ≡ record m { vdev = record m.vdev { config = m'.vdev.config } }

abbrev pub Emulated :
    Mmu → Mmio → EmuState → ℕ → ℕ → ℕ → Bool → Outcome ((ℕ × Bool) × Mmio) → Type 0
Emulated mmu m write offset value size sign (ok ((v, passed_on), m')) =
    (passed_on ≡ false) × (vnic_handle_mmio_write mmu m offset value size ≡ ok m')
Emulated mmu m read_before offset value size sign (ok ((v, passed_on), m')) =
    (passed_on ≡ true) × (v ≡ value) × (m' ≡ m)
Emulated mmu m read_after offset value size sign (ok ((v, passed_on), m')) =
    (passed_on ≡ true)
    × SameButConfig m m'
    × ((r : ℕ) × (vnic_handle_mmio_read m offset size ≡ ok (r, m')) × Widened size sign r v)
Emulated mmu m write offset value size sign (panic e) =
    vnic_handle_mmio_write mmu m offset value size ≡ panic e
Emulated mmu m read_before offset value size sign (panic e) = ⊥
Emulated mmu m read_after offset value size sign (panic e) =
    ((size == 1 || size == 2 || size == 4) ≡ false)
    ⊎ (vnic_handle_mmio_read m offset size ≡ panic e)

abbrev ReadsOnly : Mmio → Outcome (ℕ × Mmio) → Type 0
ReadsOnly m (ok r) = SameButConfig m r.1
ReadsOnly m (panic e) = Unit {0}

read-ReadsOnly : (m : Mmio) (offset size : ℕ) → ReadsOnly m (vnic_handle_mmio_read m offset size)
unfolding vnic_handle_mmio_read virtio_config_read virtio_net_get_config
read-ReadsOnly m offset size = ground arith

-- A write is never passed on to the memory and does what the register does; before a read nothing
-- happens. After a read of one byte or two, the value is the register's lowest bits, or, if asked,
-- the number of 32 bits that as a signed number is equal to those bits as a signed number; after a
-- read of four it is the register's value. The device is as before a read but for its copy of the
-- configuration. A read panics only for its width or where the register's read does.
pub vnic_emu_check-Emulated :
    (mmu : Mmu) (m : Mmio) (state : EmuState) (offset value size : ℕ) (sign : Bool)
    → Emulated mmu m state offset value size sign
        (vnic_emu_check mmu m state offset value size sign)
unfolding vnic_emu_check
vnic_emu_check-Emulated mmu m write offset value size sign =
    elim (Outcome-cases (vnic_handle_mmio_write mmu m offset value size)) [
      | inl (m', e) ↦ rw e (refl, e)
      | inr (x, e) ↦ rw e e
    ]
vnic_emu_check-Emulated mmu m read_before offset value size sign = (refl, refl, refl)
vnic_emu_check-Emulated mmu m read_after offset value size sign =
    elim (Bool-cases (size == 1 || size == 2 || size == 4)) [
      | inr w ↦ rw w (inl w)
      | inl w ↦ elim (Outcome-cases (vnic_handle_mmio_read m offset size)) [
        | inl (r, e) ↦ rw w (
            rw e (
              refl,
              subst (ReadsOnly m) e (read-ReadsOnly m offset size),
              (r.0, e, widen-Widened size sign r.0 w),
            ))
        | inr (x, e) ↦ rw w (rw e (inr e))
      ]
    ]
