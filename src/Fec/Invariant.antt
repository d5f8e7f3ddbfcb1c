-- ===== src/Fec/Invariant.antt =====
-- What holds of the trapped FEC between two accesses: which sequence runs in which primary state,
-- the NAPIs off while one does, and the software steps in their order.
use trusted_gateway.Prelude.{
  ℕ, ◌≡◌, ◌≢◌, refl, Bool, true, false, List, [], ◌∷◌, not, Outcome, ok, panic, napi_misuse, ◌>>=◌,
  Outcome-cases, inl, inr, subst, arith,
}
use trusted_gateway.Fec.State.{
  Primary, probed, opening, post_open, restarted, stopped, running, shutting_down, Sub, idle,
  restart_reset, restart_init, restart_mii_mode, restart_mii_speed, restart_fce_en, restart_r_cntrl,
  restart_ecntrl, restart_imask_run, restart_imask_mii, Access, Fec, Reply, Step, restart_sw_0,
  restart_sw_1, restart_sw_2, restart_sw_3, restart_sw_4_opt, restart_sw_5, restart_sw_6,
  in_restart, EmuState, stop_get_rmii,
}
use trusted_gateway.Fec.Traps.{emu_idle, emu_runtime, emu_post_open, emu_switch, fec_emu_check}
use trusted_gateway.Fec.Sequences.{
  restart_switch, stop_switch, fec_emulate_fec_restart, fec_emulate_fec_stop, is_idle,
}

-- How far the steps of a restart are, or that they have left their order.
pub data Phase : Type 0 where
  complete after_0 after_1 after_2 after_3 after_4 after_5 broken : Phase

-- The order of `fec_restart`, in which the fourth step is optional.
abbrev pub next : Phase → Step → Phase
next complete restart_sw_0 = after_0
next after_0 restart_sw_1 = after_1
next after_1 restart_sw_2 = after_2
next after_2 restart_sw_3 = after_3
next after_3 restart_sw_4_opt = after_4
next after_3 restart_sw_5 = after_5
next after_4 restart_sw_5 = after_5
next after_5 restart_sw_6 = complete
next _ _ = broken

-- The list has the last step first.
abbrev pub phase : List Step → Phase
phase [] = complete
phase (s ∷ ss) = next (phase ss) s

-- The phases that a substate may have.
abbrev pub fits : Sub → Phase → Bool
fits restart_reset after_0 = true
fits restart_init after_1 = true
fits restart_mii_mode after_2 = true
fits restart_mii_speed after_2 = true
fits restart_fce_en after_2 = true
fits restart_r_cntrl after_3 = true
fits restart_r_cntrl after_4 = true
fits restart_ecntrl after_5 = true
fits restart_reset _ = false
fits restart_init _ = false
fits restart_mii_mode _ = false
fits restart_mii_speed _ = false
fits restart_fce_en _ = false
fits restart_r_cntrl _ = false
fits restart_ecntrl _ = false
fits _ complete = true
fits _ _ = false

-- The substates that a primary state may have.
abbrev pub allows : Primary → Sub → Bool
allows probed idle = true
allows opening restart_imask_run = false
allows opening restart_imask_mii = false
allows opening s = in_restart s
allows post_open restart_imask_run = true
allows post_open restart_imask_mii = true
allows restarted restart_imask_run = false
allows restarted restart_imask_mii = false
allows restarted _ = true
allows stopped restart_imask_run = false
allows stopped restart_imask_mii = false
allows stopped _ = true
allows running restart_imask_run = false
allows running restart_imask_mii = false
allows running _ = true
allows shutting_down idle = true
allows _ _ = false

-- The states in which the driver may poll: no sequence is under way, and the device was opened.
abbrev pub polls : Primary → Sub → Bool
polls restarted idle = true
polls stopped idle = true
polls running idle = true
polls shutting_down _ = true
polls _ _ = false

pub record Inv (f : Fec) : Type 0 where
  pub legal : allows f.primary f.sub ≡ true
  pub ordered : fits f.sub (phase f.done) ≡ true
  pub rx_off : f.rx_disabled ≡ not (polls f.primary f.sub)
  pub tx_off : f.route_tx_disabled ≡ not (polls f.primary f.sub)
  pub queue_off : f.rx_disabled ≡ true → f.tx_stopped ≡ true

-- A returning access keeps the invariant, and a panic is none of the NAPI functions'.
abbrev pub Keeps : Outcome Reply → Type 0
Keeps (ok r) = Inv r.fec
Keeps (panic e) = e ≢ napi_misuse

restart_switch-Inv :
    (s : Sub) (offset v : ℕ) (f : Fec) → f.sub ≡ s → Inv f → Keeps (restart_switch s offset v f)
unfolding restart_switch
restart_switch-Inv restart_reset offset v f e h = ground arith
restart_switch-Inv _ offset v f e h = ground arith

stop_switch-Inv :
    (s : Sub) (offset : ℕ) (state : EmuState) (v : ℕ) (f : Fec)
    → f.sub ≡ s
    → Inv f
    → Keeps (stop_switch s offset state v f)
unfolding stop_switch
stop_switch-Inv stop_get_rmii offset state v f e h = ground arith
stop_switch-Inv _ offset state v f e h = ground arith

restart-Inv : (a : Access) (f : Fec) → Inv f → Keeps (fec_emulate_fec_restart a f)
unfolding fec_emulate_fec_restart
restart-Inv a f h = ground (arith, restart_switch-Inv f.sub a.offset a.value f refl)

stop-Inv : (a : Access) (f : Fec) → Inv f → Keeps (fec_emulate_fec_stop a f)
unfolding fec_emulate_fec_stop
stop-Inv a f h = stop_switch-Inv f.sub a.offset a.state a.value f refl h

abbrev pub runs : Primary → Bool
runs restarted = true
runs stopped = true
runs running = true
runs _ = false

emu_idle-Inv :
    (a : Access) (f : Fec)
    → is_idle f.sub ≡ true
    → runs f.primary ≡ true
    → Inv f
    → Keeps (emu_idle a f)
unfolding emu_idle
emu_idle-Inv a f e r h = ground arith

emu_runtime-Inv : (a : Access) (f : Fec) → runs f.primary ≡ true → Inv f → Keeps (emu_runtime a f)
unfolding emu_runtime
emu_runtime-Inv a f r h = ground (arith, emu_idle-Inv a f, stop-Inv a f, restart-Inv a f)

emu_post_open-Inv :
    (a : Access) (f : Fec) → f.primary ≡ post_open → Inv f → Keeps (emu_post_open a f)
unfolding emu_post_open
emu_post_open-Inv a f e h = ground arith

emu_switch-Inv :
    (p : Primary) (a : Access) (f : Fec) → f.primary ≡ p → Inv f → Keeps (emu_switch p a f)
unfolding emu_switch
emu_switch-Inv probed a f e h = ground arith
emu_switch-Inv opening a f e h = ground (arith, restart-Inv a f)
emu_switch-Inv post_open a f e h = emu_post_open-Inv a f e h
emu_switch-Inv restarted a f e h = ground (arith, emu_runtime-Inv a f)
emu_switch-Inv stopped a f e h = ground (arith, emu_runtime-Inv a f)
emu_switch-Inv running a f e h = ground (arith, emu_runtime-Inv a f)
emu_switch-Inv _ a f e h = ground arith

-- From a state of the invariant every access that the trap returns from leads to a state of the
-- invariant: a substate that the primary state allows, the software steps of the restarts in their
-- order, both NAPIs disabled and the transmit queue stopped while a sequence runs, and both enabled
-- otherwise. A panic, if there is one, is not that of `napi_disable` or `napi_enable`.
pub fec_emu_check-Inv : (a : Access) (f : Fec) → Inv f → Keeps (fec_emu_check a f)
unfolding fec_emu_check
fec_emu_check-Inv a f h = ground (arith, emu_switch-Inv f.primary a f refl)

-- What the probe function clears, under a primary state.
abbrev pub cleared : Primary → Bool → Bool → Fec
cleared primary mac ex = record {
  primary = primary;
  sub = idle;
  rcntl = 0;
  ecntl = 0;
  rmii_mode = 0;
  rx_disabled = true;
  route_tx_disabled = true;
  tx_stopped = true;
  enet_mac = mac;
  bufdesc_ex = ex;
  done = [];
}

-- The state that the probe function leaves at its end.
abbrev pub probe : Bool → Bool → Fec
probe mac ex = cleared probed mac ex

pub probe-Inv : (mac ex : Bool) → Inv (probe mac ex)
probe-Inv mac ex = ground arith

-- The normal world's accesses in turn, up to the first panic.
unfoldable pub run : List Access → Fec → Outcome Fec
run [] f = ok f
run (a ∷ as') f = fec_emu_check a f >>= λ r. run as' r.fec

abbrev pub Reached : Outcome Fec → Type 0
Reached (ok f) = Inv f
Reached (panic e) = e ≢ napi_misuse

-- Whatever the normal world does from the probe on, the state at any time satisfies the invariant,
-- and no call of `napi_disable` or `napi_enable` panics.
pub run-Inv : (accesses : List Access) (f : Fec) → Inv f → Reached (run accesses f)
unfolding run
run-Inv [] f h = h
run-Inv (a ∷ as') f h = elim (Outcome-cases (fec_emu_check a f)) [
  | inl (r, e) ↦ rw e (run-Inv as' r.fec (subst Keeps e (fec_emu_check-Inv a f h)))
  | inr (x, e) ↦ rw e (subst Keeps e (fec_emu_check-Inv a f h))
]
