-- ===== src/Napi/Wakeup.antt =====
-- No wake-up is lost, and a disabled NAPI is not polled.
use trusted_gateway.Prelude.{◌≡◌, ◌≢◌, refl, ◌⊎◌, inl, Returns, Bool, true, false, not, arith}
use trusted_gateway.Napi.Ops.{
  Napi, napi_schedule, napi_complete_done, napi_disable_request, napi_disable_round, napi_enable,
  wakeup_check, napi_instance_setup, napi_added,
}
use trusted_gateway.Napi.Worker.{
  Phase, off, sleeping, woken, polling, Driver, enabled, disabling, disabled, System, worker_start,
  worker_out, worker_cycle, worker_check, notify, disable_round, Step, start, cycle, lock, check,
  wake_up, complete, poll_return, poll_failed, schedule, notifier, request, round, enable, Reach,
  here, next,
}

abbrev is_off : Phase → Bool
is_off off = true
is_off _ = false

abbrev is_enabled : Driver → Bool
is_enabled enabled = true
is_enabled _ = false

pub record Inv (s : System) : Type 0 where
  pub active : s.napi.w_active ≡ not (is_off s.phase)
  pub waits : s.phase ≡ sleeping → s.napi.is_waiting ≡ true
  pub notified : s.phase ≡ sleeping → s.napi.sched ≡ true → s.napi.do_notify ≡ true
  pub disable_bit : s.napi.disable ≡ not (is_enabled s.driver)
  pub quiet : s.driver ≡ disabled → s.napi.sched ≡ false

Step-Inv : {s t : System} → Step s t → Inv s → Inv t
unfolding worker_start worker_out worker_cycle worker_check notify disable_round napi_schedule
    napi_complete_done napi_disable_request napi_disable_round napi_enable wakeup_check
Step-Inv (start p) h = ground arith
Step-Inv (cycle p) h = ground arith
Step-Inv (lock p) h = ground arith
Step-Inv (check p) h = ground arith
Step-Inv (wake_up p) h = ground arith
Step-Inv (complete p) h = ground arith
Step-Inv (poll_return p) h = ground arith
Step-Inv (poll_failed p) h = ground arith
Step-Inv schedule h = ground arith
Step-Inv (notifier p) h = ground arith
Step-Inv (request p q) h = ground arith
Step-Inv (round p) h = ground arith
Step-Inv (enable p q) h = ground arith

-- The system after `netif_napi_add`: the NAPI is disabled, and no thread drives it yet.
abbrev pub initial : System
unfolding napi_added napi_instance_setup
initial = record { napi = napi_added napi_instance_setup; phase = off; driver = disabled }

initial-Inv : Inv initial
unfolding napi_added napi_instance_setup
initial-Inv = ground arith

-- Whatever the worker, the notifier, the device and the driver do and in whatever order: a disabled
-- NAPI is not scheduled, and a worker that sleeps is marked as waiting, and to be notified if the
-- NAPI is scheduled.
pub Reach-Inv : {s : System} → Reach initial s → Inv s
Reach-Inv here = initial-Inv
Reach-Inv (next r st) = Step-Inv st (Reach-Inv r)

-- A worker that sleeps while its NAPI is scheduled is woken by the notifier's next check.
pub notify-woken :
    {s : System}
    → Reach initial s
    → s.phase ≡ sleeping
    → s.napi.sched ≡ true
    → (notify s).phase ≡ woken
unfolding notify wakeup_check
notify-woken {s} r p q = ground (arith, Reach-Inv r)

-- Whatever the threads have done, a thread that has disabled the NAPI can enable it again:
-- `napi_enable` does not panic, and leaves the NAPI neither disabled nor scheduled.
pub napi_enable-Returns :
    {s : System}
    → Reach initial s
    → s.driver ≡ disabled
    → Returns (λ n. (n.disable ≡ false) × (n.sched ≡ false)) (napi_enable s.napi)
unfolding napi_enable
napi_enable-Returns {s} r d = ground (arith, Reach-Inv r)

-- Whatever the threads have done, `napi_disable` does not panic on its request where the NAPI is
-- enabled.
pub napi_disable_request-Returns :
    {s : System}
    → Reach initial s
    → s.driver ≡ enabled
    → Returns (λ n. n.disable ≡ true) (napi_disable_request s.napi)
unfolding napi_disable_request
napi_disable_request-Returns {s} r d = ground (arith, Reach-Inv r)

no_poll :
    {s t : System}
    → Step s t
    → Inv s
    → s.driver ≡ disabled
    → s.phase ≢ polling
    → (t.driver ≡ enabled) ⊎ (t.phase ≢ polling)
unfolding worker_start worker_out worker_cycle worker_check notify disable_round napi_schedule
    napi_complete_done napi_disable_request napi_disable_round napi_enable wakeup_check
no_poll (start p) h d q = ground arith
no_poll (cycle p) h d q = ground arith
no_poll (lock p) h d q = ground arith
no_poll (check p) h d q = ground arith
no_poll (wake_up p) h d q = ground arith
no_poll (complete p) h d q = ground arith
no_poll (poll_return p) h d q = ground arith
no_poll (poll_failed p) h d q = ground arith
no_poll schedule h d q = ground arith
no_poll (notifier p) h d q = ground arith
no_poll (request p e) h d q = ground arith
no_poll (round p) h d q = ground arith
no_poll (enable p e) h d q = inl refl

-- After `napi_disable` has returned, no step starts a poll until the NAPI is enabled again.
pub disabled-no_poll :
    {s t : System}
    → Reach initial s
    → s.driver ≡ disabled
    → s.phase ≢ polling
    → Step s t
    → (t.driver ≡ enabled) ⊎ (t.phase ≢ polling)
disabled-no_poll r d p st = no_poll st (Reach-Inv r) d p

-- `napi_disable` ends with the round after the poll that it waits for is complete.
pub disable_round_complete :
    {s : System}
    → Reach initial s
    → s.driver ≡ disabling
    → (disable_round (record s { napi = (napi_complete_done s.napi).1 })).driver ≡ disabled
unfolding disable_round napi_complete_done napi_disable_round
disable_round_complete {s} r d = ground (arith, Reach-Inv r)

-- A request that comes while the poll runs is not dropped: completing the poll leaves the NAPI
-- scheduled and the interrupts off. With no such request it ends the scheduling.
pub complete-schedule :
    (n : Napi)
    → n.disable ≡ false
    → n.sched ≡ true
    → let (again, n') = napi_complete_done (napi_schedule n) in
      (again ≡ false) × (n'.sched ≡ true) × (n'.missed ≡ false)
unfolding napi_complete_done napi_schedule
complete-schedule n d s = ground arith
