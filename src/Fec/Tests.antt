-- ===== src/Fec/Tests.antt =====
-- The trap's theorems at concrete accesses.
use trusted_gateway.Prelude.{
  ℕ, ◌≡◌, refl, true, false, List, [], ◌∷◌, inl, Outcome, ok, panic, invalid_state, inr, arith,
}
use trusted_gateway.Prelude.Bits.{bit}
use trusted_gateway.Fec.State.{
  running, opening, restart_mii_speed, Access, Fec, Reply, r_cntrl, x_cntrl, ecntrl, mii_data,
}
use trusted_gateway.Fec.Traps.{fec_emu_check}
use trusted_gateway.Fec.Invariant.{Reached, probe, probe-Inv, run, run-Inv}
use trusted_gateway.Fec.Filter.{passes, fec_emu_check_filter}
use trusted_gateway.Fec.Registers.{fec_emu_check-r_cntrl}
use trusted_gateway.Fec.Shutdown.{writes, opening_accesses, shutdown_signal, run-shutdown}

abbrev open_it : List Access
open_it = opening_accesses true 0x50 0x340 0x22

run-Inv_example : Reached (run open_it (probe true false))
run-Inv_example = run-Inv open_it (probe true false) (probe-Inv true false)

fec_emu_check_filter_example : passes true ecntrl ≡ true
unfolding fec_emu_check
fec_emu_check_filter_example = fec_emu_check_filter (writes ecntrl 1) (probe true false) refl refl

-- In the middle of a first restart, before R_CNTRL is written.
abbrev mid_restart : Fec
mid_restart = record {
  primary = opening;
  sub = restart_mii_speed;
  rcntl = 0x07c00006;
  ecntl = 0x2;
  rmii_mode = 0;
  rx_disabled = true;
  route_tx_disabled = true;
  tx_stopped = true;
  enet_mac = true;
  bufdesc_ex = false;
  done = [];
}

-- A write with the promiscuous bit set is committed without it.
promiscuous : bit 3 0xffff ≡ 1
promiscuous = refl

abbrev reply_value : Outcome Reply → ℕ
reply_value (ok r) = r.value
reply_value (panic e) = 0

fec_emu_check-r_cntrl_example : bit 3 0x47c00346 ≡ 0
unfolding fec_emu_check
fec_emu_check-r_cntrl_example =
    fec_emu_check-r_cntrl 3 (writes r_cntrl 0xffff) mid_restart refl (λ e. absurd (omega arith))
      (record { rcntl_value = inr refl; ecntl_value = refl }) refl refl refl refl refl

-- The device after the opening.
abbrev up : Fec
up = record (probe true false) { primary = running }

run-shutdown_example :
    run (shutdown_signal ∷ writes mii_data 7 ∷ writes x_cntrl 1 ∷ []) up ≡ panic invalid_state
run-shutdown_example = run-shutdown (writes mii_data 7 ∷ writes x_cntrl 1 ∷ []) up (refl, inl refl)
