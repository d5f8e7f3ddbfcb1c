-- ===== src/Napi/Worker.antt =====
-- The worker thread, the notifier, the device and the driver as one system: each step is a critical
-- section of `worker_run`, `bstgw_notifier_wakeup_check` or an operation of `Ops`.
use trusted_gateway.Prelude.{◌≡◌, Bool, true, false, ok, if◌then◌else◌}
use trusted_gateway.Napi.Ops.{
  Napi, napi_schedule, napi_complete_done, napi_disable_request, napi_disable_round, napi_enable,
  wakeup_check,
}

-- Where the thread of `worker_run` stands: `cycling` from `re_cycle` on, `checking` at the test under
-- the mutex, `sleeping` in `condvar_wait`, `woken` between a signal and the next test.
pub data Phase : Type 0 where
  off cycling checking sleeping woken polling : Phase

-- Where the thread that disables the NAPI stands, if there is one: `disabled` from its return until
-- the NAPI is enabled again.
pub data Driver : Type 0 where
  enabled disabling disabled : Driver

pub record System : Type 0 where
  pub napi : Napi
  pub phase : Phase
  pub driver : Driver

unfoldable pub worker_start : System → System
worker_start s = record s { napi = record napi { w_active = true }; phase = cycling }
  where
    open s use {napi}

unfoldable pub worker_out : System → System
worker_out s = record s { napi = record napi { w_active = false }; phase = off }
  where
    open s use {napi}

-- A look at the state in `re_cycle`.
unfoldable pub worker_cycle : System → System
worker_cycle s =
    if napi.sched then record s { napi = record napi { do_notify = false }; phase = polling } else s
  where
    open s use {napi}

-- The test at the head of the loop, under `wait_mtx`.
unfoldable pub worker_check : System → System
worker_check s =
    if napi.sched
    then record s { napi = record napi { do_notify = false; is_waiting = false }; phase = polling }
    else record s { napi = record napi { is_waiting = true }; phase = sleeping }
  where
    open s use {napi}

abbrev pub wake : Bool → Phase → Phase
wake true sleeping = woken
wake _ p = p

unfoldable pub notify : System → System
notify s =
    let (signal, n) = wakeup_check s.napi in record s { napi = n; phase = wake signal s.phase }

unfoldable pub disable_round : System → System
disable_round s =
    let (last, n) = napi_disable_round s.napi in
    record s { napi = n; driver = if last then disabled else disabling }

-- The notifier gets the mutex only while the worker does not hold it, which is outside the test.
abbrev pub frees_mutex : Phase → Bool
frees_mutex checking = false
frees_mutex _ = true

-- One step of one of the threads. A poll may complete (`napi_complete_done`), and then returns; the
-- thread goes on in `re_cycle`, where it polls again if the NAPI is scheduled.
pub data Step (s : System) : System → Type 0 where
  start : s.phase ≡ off → Step s (worker_start s)
  cycle : s.phase ≡ cycling → Step s (worker_cycle s)
  lock : s.phase ≡ cycling → Step s (record s { phase = checking })
  check : s.phase ≡ checking → Step s (worker_check s)
  wake_up : s.phase ≡ woken → Step s (record s { phase = checking })
  complete : s.phase ≡ polling → Step s (record s { napi = (napi_complete_done s.napi).1 })
  poll_return : s.phase ≡ polling → Step s (record s { phase = cycling })
  poll_failed : s.phase ≡ polling → Step s (worker_out s)
  schedule : Step s (record s { napi = napi_schedule s.napi })
  notifier : frees_mutex s.phase ≡ true → Step s (notify s)
  request :
      {n : Napi}
      → s.driver ≡ enabled
      → napi_disable_request s.napi ≡ ok n
      → Step s (record s { napi = n; driver = disabling })
  round : s.driver ≡ disabling → Step s (disable_round s)
  enable :
      {n : Napi}
      → s.driver ≡ disabled
      → napi_enable s.napi ≡ ok n
      → Step s (record s { napi = n; driver = enabled })

pub data Reach (s : System) : System → Type 0 where
  here : Reach s s
  next : {t u : System} → Reach s t → Step t u → Reach s u
