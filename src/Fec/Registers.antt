-- ===== src/Fec/Registers.antt =====
-- What the trap lets through to the device: which registers, and which bits of them.
use trusted_gateway.Prelude.{
  ℕ, zero, suc, subst, ◌∙◌, ◌≡◌, ◌≢◌, refl, true, ◌⊎◌, Outcome, ok, panic, bit_and, bit_or, arith,
}
use trusted_gateway.Prelude.Bits.{bit, bit-bit_and, bit-bit_or}
use trusted_gateway.Fec.State.{
  Primary, Sub, restart_mii_speed, opening, post_open, restart_fce_en, restart_r_cntrl, EmuState,
  Access, Fec, Reply, in_restart, r_cntrl, probed, restart_init, restart_mii_mode, restart_ecntrl,
  stop_get_rmii, restart_reset,
}
use trusted_gateway.Fec.Traps.{emu_idle, emu_runtime, emu_post_open, emu_switch, fec_emu_check}
use trusted_gateway.Fec.Sequences.{
  is_write, restart_switch, stop_switch, fec_emulate_fec_restart, fec_emulate_fec_stop,
}

-- The values that the trusted side has prepared for R_CNTRL and ECNTRL, in the states where the
-- normal world's next write is merged with them.
abbrev RcntlReady : Sub → ℕ → Type 0
RcntlReady restart_reset n = n ≡ 0x07c00004
RcntlReady restart_init n = n ≡ 0x07c00004
RcntlReady restart_mii_mode n = (n ≡ 0x07c00004) ⊎ (n ≡ 0x07c00006)
RcntlReady restart_mii_speed n = (n ≡ 0x07c00004) ⊎ (n ≡ 0x07c00006)
RcntlReady restart_fce_en n = (n ≡ 0x07c00004) ⊎ (n ≡ 0x07c00006)
RcntlReady _ n = Unit {0}

abbrev EcntlReady : Sub → ℕ → Type 0
EcntlReady restart_ecntrl n = Unit {0}
EcntlReady restart_reset n = n ≡ 0x2
EcntlReady restart_init n = n ≡ 0x2
EcntlReady restart_mii_mode n = n ≡ 0x2
EcntlReady restart_mii_speed n = n ≡ 0x2
EcntlReady restart_fce_en n = n ≡ 0x2
EcntlReady restart_r_cntrl n = n ≡ 0x2
EcntlReady _ n = Unit {0}

pub record Ready (f : Fec) : Type 0 where
  pub rcntl_value : RcntlReady f.sub f.rcntl
  pub ecntl_value : EcntlReady f.sub f.ecntl

abbrev Readies : Outcome Reply → Type 0
Readies (ok r) = Ready r.fec
Readies (panic e) = Unit {0}

restart-Ready :
    (s : Sub) (offset v : ℕ) (f : Fec) → f.sub ≡ s → Ready f → Readies (restart_switch s offset v f)
unfolding restart_switch
restart-Ready restart_reset offset v f e h = ground arith
restart-Ready _ offset v f e h = ground arith

stop-Ready :
    (s : Sub) (offset : ℕ) (state : EmuState) (v : ℕ) (f : Fec)
    → f.sub ≡ s
    → Readies (stop_switch s offset state v f)
unfolding stop_switch
stop-Ready stop_get_rmii offset state v f e = ground arith
stop-Ready _ offset state v f e = ground arith

idle-Ready : (a : Access) (f : Fec) → Ready f → Readies (emu_idle a f)
unfolding emu_idle
idle-Ready a f h = ground arith

emu_switch-Ready : (p : Primary) (a : Access) (f : Fec) → Ready f → Readies (emu_switch p a f)
unfolding emu_switch emu_runtime emu_post_open fec_emulate_fec_restart fec_emulate_fec_stop
emu_switch-Ready probed a f h = ground arith
emu_switch-Ready opening a f h = ground (arith, restart-Ready f.sub a.offset a.value f refl)
emu_switch-Ready post_open a f h = ground arith
emu_switch-Ready _ a f h = ground (
  arith,
  restart-Ready f.sub a.offset a.value f refl,
  idle-Ready a f,
  stop-Ready f.sub a.offset a.state a.value f refl,
)

-- The accesses keep the prepared values.
pub fec_emu_check-Ready : (a : Access) (f : Fec) → Ready f → Readies (fec_emu_check a f)
unfolding fec_emu_check
fec_emu_check-Ready a f h = ground (arith, emu_switch-Ready f.primary a f h)

-- A merged value: the bits of the mask are the writer's, the others the trusted side's.
merged_bits : (i v m k : ℕ) → bit i m ≡ 0 → bit i (bit_or (bit_and v m) k) ≡ bit i k
merged_bits i v m k h = omega (arith, bit-bit_or i (bit_and v m) k, bit-bit_and i v m)

-- R_CNTRL as the trusted side wants it, but for bit 1.
abbrev pub rcntl_base : Sub → ℕ
rcntl_base restart_fce_en = 0x47c00024
rcntl_base _ = 0x47c00004

bit-zero : (i : ℕ) → bit i 0 ≡ 0
bit-zero zero = refl
bit-zero (suc i) = bit-zero i

bit_two : (i : ℕ) → i ≢ 1 → bit i 2 ≡ 0
bit_two zero h = refl
bit_two (suc zero) h = absurd (h refl)
bit_two (suc (suc i)) h = bit-zero i

-- Bit 1 apart, the choice of the 10 Mbit mode does not change the prepared value.
mode_bits : (i k : ℕ) → i ≢ 1 → bit i (bit_or k 2) ≡ bit i k
mode_bits i k h = omega (arith, bit-bit_or i k 2, bit_two i h)

abbrev Merged : ℕ → Sub → Outcome Reply → Type 0
Merged i s (ok r) = bit i r.value ≡ bit i (rcntl_base s)
Merged i s (panic e) = Unit {0}

module _ (i v : ℕ) (outside : bit i 0x340 ≡ 0) (not_mode : i ≢ 1) where
  abbrev Merges : ℕ → ℕ → Type 0
  Merges base k = bit i (bit_or (bit_and v 0x340) k) ≡ bit i base

  merge_plain : (base : ℕ) → Merges base base
  merge_plain base = merged_bits i v 0x340 base outside

  merge_mode : (base : ℕ) → Merges base (bit_or base 2)
  merge_mode base = merged_bits i v 0x340 (bit_or base 2) outside ∙ mode_bits i base not_mode

  restart-Merged :
      (s : Sub) (f : Fec) → f.sub ≡ s → Ready f → Merged i s (restart_switch s r_cntrl v f)
  unfolding restart_switch
  restart-Merged restart_mii_speed f e h =
      ground (arith, merge_plain 0x47c00004, merge_mode 0x47c00004)
  restart-Merged restart_fce_en f e h =
      ground (arith, merge_plain 0x47c00024, merge_mode 0x47c00024)
  restart-Merged _ f e h = ground arith

abbrev MergedIfAllowed : ℕ → Sub → Outcome Reply → Type 0
MergedIfAllowed i s (ok r) = r.allowed ≡ true → bit i r.value ≡ bit i (rcntl_base s)
MergedIfAllowed i s (panic e) = Unit {0}

emu-Merged :
    (i : ℕ) (a : Access) (f : Fec)
    → bit i 0x340 ≡ 0
    → i ≢ 1
    → Ready f
    → in_restart f.sub ≡ true
    → is_write a.state ≡ true
    → a.offset ≡ r_cntrl
    → MergedIfAllowed i f.sub (fec_emu_check a f)
unfolding fec_emu_check emu_switch emu_runtime emu_post_open fec_emulate_fec_restart
emu-Merged i a f out mode h s w o = ground (arith, restart-Merged i a.value out mode f.sub f refl h)

-- In a restart, whatever value the normal world writes to R_CNTRL: outside bits 6, 8 and 9 of the
-- mask 0x340 and the 10 Mbit mode of bit 1, the committed value has the bits of 0x47c00004, and of
-- 0x47c00024 where flow control was enabled. Bit 3, the promiscuous mode, is clear in both.
pub fec_emu_check-r_cntrl :
    (i : ℕ) (a : Access) (f : Fec) {r : Reply}
    → bit i 0x340 ≡ 0
    → i ≢ 1
    → Ready f
    → in_restart f.sub ≡ true
    → is_write a.state ≡ true
    → a.offset ≡ r_cntrl
    → fec_emu_check a f ≡ ok r
    → r.allowed ≡ true
    → bit i r.value ≡ bit i (rcntl_base f.sub)
fec_emu_check-r_cntrl i a f {r} out mode h s w o e al =
    subst (MergedIfAllowed i f.sub) e (emu-Merged i a f out mode h s w o) al
