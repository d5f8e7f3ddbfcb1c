-- ===== src/Pta/Commands.antt =====
-- `invoke_command` with its commands. NPF's configuration and the nvlist library are parameters.
use trusted_gateway.Prelude.{
  ℕ, Bool, not, List, [], Option, none, some, Outcome, ok, panic, bad_argument, if◌then◌else◌, ◌==◌,
  ◌!=◌, ltb, length,
}
use trusted_gateway.Pta.Sessions.{
  TeeResult, tee_success, tee_bad_parameters, tee_out_of_memory, tee_generic, tee_access_denied,
  tee_not_implemented, tee_bad_format, tee_short_buffer, Kind, unbound, cleaner, worker, Session,
  Pta, worker_get_number,
}

-- `tee_ta_get_calling_session`: none, or whether it is of a user TA, with the TA's UUID.
abbrev pub Caller : Type 0
Caller = Option (Bool × ℕ)

-- BSTGW_TA_WEB_STUB_UUID is a parameter, as are libnv and `npfctl_run_op` on NPF's configuration
-- `C`, and the description of the interfaces, which is NULL without memory.
pub record Libs (C Nv : Type 0) : Type 0 where
  pub web_stub_uuid : ℕ
  pub nvlist_unpack : List ℕ → Option Nv
  pub nvlist_create : Option Nv
  pub nvlist_pack : Nv → Option (List ℕ)
  pub operation : Nv → ℕ
  pub query_netifs : ℕ
  pub netifs_reply : Option Nv
  pub npfctl_run_op : C → ℕ → Nv → C × Nv

-- What a command has made the router do, besides its answer.
pub data Done : Type 0 where
  nothing : Done
  ran_cleaner : Done
  ran_worker : ℕ → Done

-- The answer, the value or the bytes that go to the caller, what was done, and the configuration.
pub record Reply (C : Type 0) : Type 0 where
  pub result : TeeResult
  pub value : Option ℕ
  pub bytes : List ℕ
  pub done : Done
  pub config : C

unfoldable pub bstgw_called_by_trusted_app : ℕ → Caller → TeeResult
bstgw_called_by_trusted_app ref none = tee_access_denied
bstgw_called_by_trusted_app ref (some (user_ta, uuid)) =
    if not user_ta
    then tee_access_denied
    else (if uuid != ref then tee_access_denied else tee_success)

module _ {C Nv : Type 0} (lib : Libs C Nv) where
  abbrev pub answer : TeeResult → C → Reply C
  answer res c = record { result = res; value = none; bytes = []; done = nothing; config = c }

  abbrev pub answer_value : ℕ → C → Reply C
  answer_value n c = record {
    result = tee_success;
    value = some n;
    bytes = [];
    done = nothing;
    config = c;
  }

  -- `bstgw_npfctl_cmd`: none if it fails, with the configuration as it is then.
  abbrev pub netifs : Option Nv → C → Option Nv × C
  netifs none c = (none, c)
  netifs (some reply) c = (some reply, c)

  abbrev pub run_op : C × Nv → Option Nv × C
  run_op (c, reply) = (some reply, c)

  unfoldable pub bstgw_npfctl_cmd : Bool → ℕ → Nv → C → Option Nv × C
  bstgw_npfctl_cmd ready op req c =
      if not ready
      then (none, c)
      else (if op == lib.query_netifs
          then netifs lib.netifs_reply c
          else run_op (lib.npfctl_run_op c op req))

  -- From the packing of the reply on. The configuration has been changed before.
  abbrev pub copy_out : Option (List ℕ) → ℕ → C → Reply C
  copy_out none room c = answer tee_out_of_memory c
  copy_out (some packed) room c =
      if ltb room (length packed)
      then answer tee_short_buffer c
      else record { result = tee_success; value = none; bytes = packed; done = nothing; config = c }

  abbrev pub replied : ℕ → Option Nv × C → Reply C
  replied room (none, c) = answer tee_generic c
  replied room (some reply, c) = copy_out (lib.nvlist_pack reply) room c

  abbrev pub with_reply_list : Bool → Option Nv → Nv → ℕ → C → Reply C
  with_reply_list ready none req room c = answer tee_out_of_memory c
  with_reply_list ready (some empty) req room c =
      replied room (bstgw_npfctl_cmd ready (lib.operation req) req c)

  abbrev pub with_request : Bool → Option Nv → ℕ → C → Reply C
  with_request ready none room c = answer tee_bad_format c
  with_request ready (some req) room c = with_reply_list ready lib.nvlist_create req room c

  abbrev pub trusted : TeeResult → Bool → ℕ → List ℕ → ℕ → C → Reply C
  trusted tee_success ready param_types req room c =
      if param_types != 0x65
      then answer tee_bad_parameters c
      else with_request ready (lib.nvlist_unpack req) room c
  trusted res ready param_types req room c = answer res c

  -- `room` is the size of the caller's buffer for the reply.
  unfoldable pub bstgw_firewall_config : Caller → Bool → ℕ → List ℕ → ℕ → C → Reply C
  unfolding bstgw_called_by_trusted_app bstgw_npfctl_cmd
  bstgw_firewall_config caller ready param_types req room c =
      trusted (bstgw_called_by_trusted_app lib.web_stub_uuid caller) ready param_types req room c

  -- `worker_run` asserts that there is a worker. Its run is that of `Napi.Worker`.
  unfoldable pub cmd_run_worker : Option ℕ → C → Outcome (Reply C)
  cmd_run_worker none c = panic bad_argument
  cmd_run_worker (some i) c = ok (record (answer tee_success c) { done = ran_worker i })

  abbrev pub no_params : ℕ → Outcome (Reply C) → C → Outcome (Reply C)
  no_params param_types o c = if param_types != 0 then ok (answer tee_bad_parameters c) else o

  -- `cmd_get_nworkers` and `bstgw_get_some_stats`: one value that is given out.
  abbrev pub value_out : ℕ → ℕ → C → Reply C
  value_out param_types n c =
      if param_types != 2 then answer tee_bad_parameters c else answer_value n c

  -- A case of the switch in `invoke_command`, which is open to one type of session.
  unfoldable pub only : Kind → Kind → Outcome (Reply C) → C → Outcome (Reply C)
  only unbound unbound o c = o
  only cleaner cleaner o c = o
  only worker worker o c = o
  only k k' o c = ok (answer tee_access_denied c)

  -- `invoke_command` in an open session, with the number of workers as `worker_get_number` has it.
  unfoldable pub invoke_command :
      Session → ℕ → Caller → Bool → ℕ → ℕ → List ℕ → ℕ → C → Outcome (Reply C)
  unfolding bstgw_firewall_config cmd_run_worker only
  invoke_command sess n caller ready cmd_id param_types req room c =
      if cmd_id == 0
      then only unbound sess.kind (ok (bstgw_firewall_config caller ready param_types req room c)) c
      else (if cmd_id == 1
          then only unbound sess.kind (ok (value_out param_types n c)) c
          else (if cmd_id == 4
              then only unbound sess.kind (ok (value_out param_types 0 c)) c
              else (if cmd_id == 2
                  then only cleaner sess.kind
                      (no_params param_types
                        (ok (record (answer tee_success c) { done = ran_cleaner })) c)
                      c
                  else (if cmd_id == 3
                      then only worker sess.kind
                          (no_params param_types (cmd_run_worker sess.router_worker c) c) c
                      else ok (answer tee_not_implemented c)))))

  abbrev pub invoke_in :
      Option Session → Caller → Bool → ℕ → ℕ → List ℕ → ℕ → Pta → C → Outcome (Reply C)
  invoke_in none caller ready cmd_id param_types req room s c = ok (answer tee_generic c)
  invoke_in (some sess) caller ready cmd_id param_types req room s c =
      invoke_command sess (worker_get_number s) caller ready cmd_id param_types req room c

  -- A command of the session with OP-TEE's number `id`.
  unfoldable pub invoke : ℕ → Caller → Bool → ℕ → ℕ → List ℕ → ℕ → Pta → C → Outcome (Reply C)
  unfolding invoke_command worker_get_number
  invoke id caller ready cmd_id param_types req room s c =
      invoke_in (s.sessions id) caller ready cmd_id param_types req room s c
