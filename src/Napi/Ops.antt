-- ===== src/Napi/Ops.antt =====
-- `struct napi_struct` and the operations on its state word. The four bits of the word are fields;
-- each operation is one critical section of the NAPI's lock, but for `napi_disable`, which gives the
-- lock up between its rounds.
use trusted_gateway.Prelude.{
  Bool, true, false, ◌&&◌, not, Outcome, ok, panic, napi_misuse, if◌then◌else◌,
}

pub record Napi : Type 0 where
  pub sched : Bool
  pub missed : Bool
  pub disable : Bool
  pub w_active : Bool
  pub is_waiting : Bool
  pub do_notify : Bool

-- `napi_instance_setup`, and what `netif_napi_add` then makes of the state.
unfoldable pub napi_instance_setup : Napi
napi_instance_setup = record {
  sched = false;
  missed = false;
  disable = false;
  w_active = false;
  is_waiting = false;
  do_notify = false;
}

unfoldable pub napi_added : Napi → Napi
napi_added n = record n {
  sched = false;
  missed = false;
  disable = true;
  w_active = false;
  is_waiting = false;
}

unfoldable pub napi_schedule_prep_locked : Napi → Bool × Napi
napi_schedule_prep_locked n =
    if n.disable
    then (false, n)
    else (if n.sched
        then (false, record n { missed = true })
        else (true, record n { sched = true; missed = false }))

unfoldable pub napi_schedule : Napi → Napi
unfolding napi_schedule_prep_locked
napi_schedule n =
    let (kick, n') = napi_schedule_prep_locked n in
    if kick then record n' { do_notify = true } else n'

-- The result says whether interrupts are to be enabled again.
unfoldable pub napi_complete_done : Napi → Bool × Napi
napi_complete_done n =
    if not n.disable && n.missed
    then (false, record n { missed = false })
    else (true, record n { sched = false })

-- `napi_disable` up to its loop.
unfoldable pub napi_disable_request : Napi → Outcome Napi
napi_disable_request n = if n.disable then panic napi_misuse else ok (record n { disable = true })

-- One round of the loop, and whether it was the last.
unfoldable pub napi_disable_round : Napi → Bool × Napi
napi_disable_round n =
    if not n.w_active
    then (true, record n { sched = false })
    else (if n.sched then (false, n) else (true, n))

unfoldable pub napi_enable : Napi → Outcome Napi
napi_enable n =
    if not n.disable
    then panic napi_misuse
    else (if n.sched then panic napi_misuse else ok (record n { disable = false }))

-- `bstgw_notifier_wakeup_check` for one NAPI whose mutex it has got: whether it signals.
unfoldable pub wakeup_check : Napi → Bool × Napi
wakeup_check n =
    if not n.is_waiting then (false, n) else (n.do_notify, record n { do_notify = false })
