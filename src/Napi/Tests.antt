-- ===== src/Napi/Tests.antt =====
-- The scheduling theorems on a run of a worker that falls asleep and is scheduled again.
use trusted_gateway.Prelude.{refl, true, false, [], ◌∷◌}
use trusted_gateway.Napi.Ops.{
  Napi, napi_added, napi_instance_setup, napi_schedule, napi_disable_request, napi_enable,
}
use trusted_gateway.Napi.Registry.{Device, put}
use trusted_gateway.Napi.Worker.{
  System, off, sleeping, polling, disabling, enabled, worker_start, worker_cycle, worker_check,
  start, cycle, lock, check, schedule, request, enable, Reach, here, next,
}
use trusted_gateway.Napi.Wakeup.{Inv, initial, Reach-Inv}

abbrev idle : Napi
idle = record {
  sched = false;
  missed = false;
  disable = false;
  w_active = false;
  is_waiting = false;
  do_notify = false;
}

abbrev asleep : System
asleep = record {
  napi = record idle { sched = true; w_active = true; is_waiting = true; do_notify = true };
  phase = sleeping;
  driver = enabled;
}

abbrev ready : System
ready = record { napi = idle; phase = off; driver = enabled }

ready-Reach : Reach initial ready
unfolding napi_added napi_instance_setup napi_enable
ready-Reach = next here (enable refl refl)

asleep-Reach : Reach initial asleep
unfolding worker_start worker_check napi_schedule
asleep-Reach = next (next (next (next ready-Reach (start refl)) (lock refl)) (check refl)) schedule

abbrev busy : System
busy = record {
  napi = record idle { sched = true; w_active = true };
  phase = polling;
  driver = enabled;
}

busy-Reach : Reach initial busy
unfolding worker_start worker_cycle napi_schedule
busy-Reach = next (next (next ready-Reach (start refl)) schedule) (cycle refl)

abbrev stopping : System
stopping = record busy {
  napi = record idle { sched = true; w_active = true; disable = true };
  driver = disabling;
}

stopping-Reach : Reach initial stopping
unfolding napi_disable_request
stopping-Reach = next busy-Reach (request refl refl)

Reach-Inv_example : Inv asleep
Reach-Inv_example = Reach-Inv asleep-Reach

abbrev bare : Device
bare = record { napi_count = 0; napis = λ i. 0; nq = [] }

abbrev added : Device
added = record { napi_count = 1; napis = put (λ i. 0) 0 7; nq = 7 ∷ [] }
