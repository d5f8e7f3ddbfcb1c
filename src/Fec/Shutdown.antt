-- ===== src/Fec/Shutdown.antt =====
-- The end of the device's life, and the sequence by which the untrusted driver opens it.
use trusted_gateway.Prelude.{
  ℕ, ◌≡◌, ◌≢◌, refl, ap, ◌∙◌, Bool, true, false, not, ◌&&◌, ◌||◌, List, [], ◌∷◌, ◌⊎◌, inl, inr,
  Outcome, ok, panic, invalid_state, ◌>>=◌, subst, if◌then◌else◌, ◌==◌, ◌!=◌, arith, Bool-cases,
  Outcome-cases,
}
use trusted_gateway.Fec.State.{
  restarted, stopped, running, shutting_down, shut_down, idle, write, Access, Fec, Reply, ievent,
  imask, ecntrl, mii_data, mii_speed, r_cntrl, x_cntrl, x_wmrk, r_fifo_rsem, default_imask,
  enet_rsem_v,
}
use trusted_gateway.Fec.Sequences.{is_write}
use trusted_gateway.Fec.Traps.{emu_idle, emu_runtime, emu_switch, fec_emu_check}
use trusted_gateway.Fec.Invariant.{Reached, probe, probe-Inv, run, run-Inv}

-- The write of the virtual shutdown signal.
abbrev pub shutdown_signal : Access
shutdown_signal = record { offset = x_wmrk; state = write; value = 48; size = 4 }

-- The device was opened, and no sequence is under way.
abbrev pub AtRest : Fec → Type 0
AtRest f =
    (f.sub ≡ idle) × ((f.primary ≡ running) ⊎ (f.primary ≡ restarted) ⊎ (f.primary ≡ stopped))

-- The accesses that no branch on the state sees: those that are not of a word, those of MII_DATA,
-- and the reads of IEVENT.
abbrev pub is_stateless : Access → Bool
is_stateless a =
    a.size != 4 || (a.offset == mii_data) || ((a.offset == ievent) && not (is_write a.state))

abbrev pub all_stateless : List Access → Bool
all_stateless [] = true
all_stateless (a ∷ rest) = is_stateless a && all_stateless rest

abbrev going_down : Fec → Fec
going_down f = record f { primary = shutting_down }

abbrev state_after : Outcome Reply → Outcome Fec
state_after o = o >>= λ r. ok r.fec

signal_lem :
    (f : Fec) → AtRest f → state_after (fec_emu_check shutdown_signal f) ≡ ok (going_down f)
unfolding fec_emu_check emu_switch emu_runtime emu_idle
signal_lem f (s, p) = ground (arith, s, p)

going_down_lem :
    (a : Access) (f : Fec)
    → f.sub ≡ idle
    → state_after (fec_emu_check a (going_down f))
      ≡ (if is_stateless a then ok (going_down f) else panic invalid_state)
unfolding fec_emu_check emu_switch
going_down_lem a f s = ground (arith, s)

run_first :
    (a : Access) (rest : List Access) (f : Fec)
    → run (a ∷ rest) f ≡ (state_after (fec_emu_check a f) >>= run rest)
unfolding run
run_first a rest f = elim (Outcome-cases (fec_emu_check a f)) [
  | inl (r, e) ↦ rw e refl
  | inr (x, e) ↦ rw e refl
]

going_down-run :
    (accesses : List Access) (f : Fec)
    → f.sub ≡ idle
    → run accesses (going_down f)
      ≡ (if all_stateless accesses then ok (going_down f) else panic invalid_state)
going_down-run [] f s = unfold run in refl
going_down-run (a ∷ rest) f s =
    run_first a rest (going_down f)
    ∙ ap (λ o. o >>= run rest) (going_down_lem a f s)
    ∙ elim (Bool-cases (is_stateless a)) [
      | inl e ↦ rw e (going_down-run rest f s)
      | inr e ↦ rw e refl
    ]

-- From RUNNING, RESTARTED or STOPPED, with no sequence under way, the virtual shutdown signal leads
-- to SFEC_PRI_SHUTTING_DOWN, and there is no way on. Whatever accesses follow, the device stays in
-- that state as long as none but accesses not of a word, accesses to MII_DATA and reads of IEVENT
-- follow, and the first access of another kind panics.
pub run-shutdown :
    (accesses : List Access) (f : Fec)
    → AtRest f
    → run (shutdown_signal ∷ accesses) f ≡ (
        if all_stateless accesses
        then ok (record f { primary = shutting_down })
        else panic invalid_state)
run-shutdown accesses f h =
    run_first shutdown_signal accesses f
    ∙ ap (λ o. o >>= run accesses) (signal_lem f h)
    ∙ going_down-run accesses f h.0

-- No accesses of the normal world lead from the probe to the state SFEC_PRI_SHUT_DOWN.
pub run-never_shut_down :
    (accesses : List Access) (mac ex : Bool) {f : Fec}
    → run accesses (probe mac ex) ≡ ok f
    → f.primary ≢ shut_down
run-never_shut_down accesses mac ex {f} e d =
    ground (arith, subst Reached e (run-Inv accesses (probe mac ex) (probe-Inv mac ex)))

abbrev pub writes : ℕ → ℕ → Access
writes o v = record { offset = o; state = write; value = v; size = 4 }

-- The writes by which `fec_enet_open` of the Linux driver brings the device up with a link: MII
-- speed, mode and receive control are free.
abbrev pub opening_accesses : Bool → ℕ → ℕ → ℕ → List Access
opening_accesses full_duplex speed rcntl ecntl =
    writes ecntrl 1
    ∷ writes ievent 0xffffffff
    ∷ writes x_cntrl (if full_duplex then 0x04 else 0x0)
    ∷ writes mii_speed speed
    ∷ writes r_fifo_rsem enet_rsem_v
    ∷ writes r_cntrl rcntl
    ∷ writes ecntrl ecntl
    ∷ writes imask default_imask
    ∷ writes x_wmrk 47
    ∷ []

abbrev pub Opened : Outcome Fec → Type 0
Opened (ok f) =
    (f.primary ≡ running)
    × (f.sub ≡ idle)
    × (f.rx_disabled ≡ false)
    × (f.route_tx_disabled ≡ false)
    × (f.tx_stopped ≡ false)
Opened (panic e) = ⊥

-- The driver's opening sequence is let through whole, whichever duplex mode, speed and control
-- values it writes, and leaves the device running with its NAPIs enabled and its queue started.
pub run-opening :
    (mac ex full_duplex : Bool) (speed rcntl ecntl : ℕ)
    → Opened (run (opening_accesses full_duplex speed rcntl ecntl) (probe mac ex))
unfolding run fec_emu_check
run-opening mac ex true speed rcntl ecntl = (refl, refl, refl, refl, refl)
run-opening mac ex false speed rcntl ecntl = (refl, refl, refl, refl, refl)
