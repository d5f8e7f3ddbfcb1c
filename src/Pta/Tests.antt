-- ===== src/Pta/Tests.antt =====
-- A router of two workers, the first of which does not exist, and a firewall whose configuration is a
-- number.
use trusted_gateway.Prelude.{
  ℕ, ◌+◌, ◌≡◌, ◌≢◌, ◌⊎◌, refl, true, false, [], ◌∷◌, Option, none, some, Ensures,
}
use trusted_gateway.Pta.Sessions.{unbound, worker, Session, Pta, open_session}
use trusted_gateway.Pta.Commands.{Libs, invoke_command}
use trusted_gateway.Pta.Exclusive.{owner, Reach, start, step, opens, Reach-Exclusive}
use trusted_gateway.Pta.Access.{Allowed, invoke_command-Allowed}

abbrev booted : Pta
booted = record { started = true; worker = none ∷ some none ∷ some none ∷ []; sessions = λ n. none }

-- A session for the first free worker, another for the second, and a third, which is refused.
abbrev after_opens : Pta
after_opens =
    (open_session 1 2 true false 6
      (open_session 1 2 true false 5 (open_session 1 2 true false 4 booted).1).1).1

after_opens-Reach : Reach booted after_opens
unfolding open_session
after_opens-Reach =
    step
      (step (step start (opens booted 1 2 true false 4 refl))
        (opens (open_session 1 2 true false 4 booted).1 1 2 true false 5 refl))
      (opens (open_session 1 2 true false 5 (open_session 1 2 true false 4 booted).1).1 1 2 true
        false 6 refl)

abbrev the_first : ℕ
the_first = 4

abbrev session_of : ℕ → Session
session_of i = record { kind = worker; router_worker = some i; npf_worker = false }

Reach-Exclusive_example :
    ((i : ℕ) × (some 1 ≡ some i) × (owner after_opens.worker i ≡ some the_first))
    × ((the_first ≡ 5) ⊎ (◌≢◌ {A = Option ℕ} (some 1) (some 2)))
unfolding open_session
Reach-Exclusive_example =
    Reach-Exclusive booted after_opens 4 5 (session_of 1) (session_of 2) (λ n. refl)
      after_opens-Reach refl refl refl refl

abbrev lib : Libs ℕ ℕ
lib = record {
  web_stub_uuid = 77;
  nvlist_unpack = λ xs. some 3;
  nvlist_create = some 0;
  nvlist_pack = λ n. some (n ∷ []);
  operation = λ n. n;
  query_netifs = 9;
  netifs_reply = none;
  npfctl_run_op = λ c op req. (c + op, 0);
}

-- The web stub changes the configuration.
invoke_command-Allowed_example :
    Ensures
      (Allowed lib
        (record { kind = unbound; router_worker = none; npf_worker = false })
        (some (true, 77))
        0
        0x65
        40)
      (invoke_command lib
        (record { kind = unbound; router_worker = none; npf_worker = false })
        2
        (some (true, 77))
        true
        0
        0x65
        (1 ∷ [])
        100
        40)
invoke_command-Allowed_example =
    invoke_command-Allowed lib (record { kind = unbound; router_worker = none; npf_worker = false })
      2 (some (true, 77)) true 0 0x65 (1 ∷ []) 100 40
