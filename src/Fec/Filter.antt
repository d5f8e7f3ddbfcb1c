-- ===== src/Fec/Filter.antt =====
-- Which registers of the device the trap lets the normal world reach.
use trusted_gateway.Prelude.{
  ℕ, ◌≡◌, Bool, true, false, Outcome, ok, panic, ◌||◌, ◌==◌, subst, arith,
}
use trusted_gateway.Fec.State.{
  Primary, probed, Sub, restart_reset, stop_get_rmii, Access, Fec, Reply, ievent, imask, ecntrl,
  mii_data, mii_speed, r_cntrl, x_cntrl, r_fifo_rsem,
}
use trusted_gateway.Fec.Traps.{emu_idle, emu_runtime, emu_post_open, emu_switch, fec_emu_check}
use trusted_gateway.Fec.Sequences.{
  is_write, restart_switch, stop_switch, fec_emulate_fec_restart, fec_emulate_fec_stop,
}

-- The registers that the normal world may write, and those that it may read.
abbrev pub writable : ℕ → Bool
writable o =
    o == ievent
    || o == imask
    || o == ecntrl
    || o == mii_data
    || o == mii_speed
    || o == r_cntrl
    || o == x_cntrl
    || o == r_fifo_rsem

abbrev pub readable : ℕ → Bool
readable o = o == ievent || o == mii_data || o == r_cntrl

abbrev pub passes : Bool → ℕ → Bool
passes true o = writable o
passes false o = readable o

abbrev Filtered : Access → Outcome Reply → Type 0
Filtered a (ok r) = r.allowed ≡ true → passes (is_write a.state) a.offset ≡ true
Filtered a (panic e) = Unit {0}

restart-Filtered :
    (s : Sub) (a : Access) (f : Fec)
    → is_write a.state ≡ true
    → Filtered a (restart_switch s a.offset a.value f)
unfolding restart_switch
restart-Filtered restart_reset a f w = ground arith
restart-Filtered _ a f w = ground arith

stop-Filtered :
    (s : Sub) (a : Access) (f : Fec) → Filtered a (stop_switch s a.offset a.state a.value f)
unfolding stop_switch
stop-Filtered stop_get_rmii a f = ground arith
stop-Filtered _ a f = ground arith

emu_idle-Filtered : (a : Access) (f : Fec) → Filtered a (emu_idle a f)
unfolding emu_idle
emu_idle-Filtered a f = ground arith

emu_restart-Filtered : (a : Access) (f : Fec) → Filtered a (fec_emulate_fec_restart a f)
unfolding fec_emulate_fec_restart
emu_restart-Filtered a f = ground (arith, restart-Filtered f.sub a f)

emu_runtime-Filtered : (a : Access) (f : Fec) → Filtered a (emu_runtime a f)
unfolding emu_runtime fec_emulate_fec_stop
emu_runtime-Filtered a f =
    ground (arith, emu_idle-Filtered a f, stop-Filtered f.sub a f, emu_restart-Filtered a f)

emu_post_open-Filtered : (a : Access) (f : Fec) → Filtered a (emu_post_open a f)
unfolding emu_post_open
emu_post_open-Filtered a f = ground arith

emu_switch-Filtered : (p : Primary) (a : Access) (f : Fec) → Filtered a (emu_switch p a f)
unfolding emu_switch
emu_switch-Filtered probed a f = ground arith
emu_switch-Filtered _ a f =
    ground (arith, emu_runtime-Filtered a f, emu_restart-Filtered a f, emu_post_open-Filtered a f)

emu-Filtered : (a : Access) (f : Fec) → Filtered a (fec_emu_check a f)
unfolding fec_emu_check
emu-Filtered a f = ground (arith, emu_switch-Filtered f.primary a f)

-- What the trap commits in any state is a write of IEVENT, IMASK, ECNTRL, MII_DATA, MII_SPEED,
-- R_CNTRL, X_CNTRL or R_FIFO_RSEM, or a read of IEVENT, MII_DATA or R_CNTRL.
pub fec_emu_check_filter :
    (a : Access) (f : Fec) {r : Reply}
    → fec_emu_check a f ≡ ok r
    → r.allowed ≡ true
    → passes (is_write a.state) a.offset ≡ true
fec_emu_check_filter a f {r} e h = subst (Filtered a) e (emu-Filtered a f) h
