-- ===== src/Pta/Sessions.antt =====
-- `open_session` and `close_session`, and the workers' bindings.
use trusted_gateway.Prelude.{
  ℕ, zero, suc, Bool, true, false, ◌&&◌, List, [], ◌∷◌, Option, none, some, if◌then◌else◌, ◌==◌,
  ◌!=◌, length,
}

-- The results of OP-TEE's API that the code answers.
pub data TeeResult : Type 0 where
  tee_success tee_bad_parameters tee_out_of_memory tee_generic tee_access_denied tee_not_implemented
        tee_bad_format tee_short_buffer :
      TeeResult

-- The types of a session.
pub data Kind : Type 0 where
  unbound cleaner worker : Kind

unfoldable pub kind_of : ℕ → Option Kind
kind_of n =
    if n == 0
    then some unbound
    else (if n == 1 then some cleaner else (if n == 2 then some worker else none))

-- `worker_sess_info`: the worker's index, or none for NULL. `npf_worker` says whether
-- `npf_worker_data` is not NULL; the code keeps one or the other, by the type.
pub record Session : Type 0 where
  pub kind : Kind
  pub router_worker : Option ℕ
  pub npf_worker : Bool

-- `worker_bind_t`: the session that the worker is bound to, or none for WORKER_UNBOUND.
abbrev pub Binding : Type 0
Binding = Option ℕ

-- `trusted_router`, if it is not NULL, with its workers, of which some may be NULL, and the open
-- sessions by OP-TEE's numbers for them.
pub record Pta : Type 0 where
  pub started : Bool
  pub worker : List (Option Binding)
  pub sessions : ℕ → Option Session

abbrev pub put {ℓ} : {A : Type ℓ} → (ℕ → A) → ℕ → A → ℕ → A
put f i a j = if i == j then a else f j

-- The loop of `bind_to_worker`: the index of the worker, and the workers. NPF registers the thread.
abbrev pub behind :
    Option Binding → Option (ℕ × List (Option Binding)) → Option (ℕ × List (Option Binding))
behind w none = none
behind w (some (i, ws)) = some (suc i, w ∷ ws)

unfoldable pub bind_first : ℕ → List (Option Binding) → Option (ℕ × List (Option Binding))
bind_first id [] = none
bind_first id (none ∷ ws) = behind none (bind_first id ws)
bind_first id (some none ∷ ws) = some (zero, some (some id) ∷ ws)
bind_first id (some (some other) ∷ ws) = behind (some (some other)) (bind_first id ws)

-- The session's context and its number exist at that point.
unfoldable pub bind_to_worker : ℕ → Pta → Option (ℕ × List (Option Binding))
unfolding bind_first
bind_to_worker id s = if s.started then bind_first id s.worker else none

unfoldable pub unbind : ℕ → List (Option Binding) → List (Option Binding)
unbind i [] = []
unbind zero (none ∷ ws) = none ∷ ws
unbind zero (some b ∷ ws) = some none ∷ ws
unbind (suc i) (w ∷ ws) = w ∷ unbind i ws

-- `detach_nw_from_worker`, in a router with its firewall.
unfoldable pub detach_nw_from_worker : Option ℕ → List (Option Binding) → List (Option Binding)
unfolding unbind
detach_nw_from_worker none ws = ws
detach_nw_from_worker (some i) ws = unbind i ws

abbrev pub opened : ℕ → Session → Pta → TeeResult × Pta
opened id sess s = (tee_success, record s { sessions = put s.sessions id (some sess) })

abbrev pub with_worker : ℕ → Option (ℕ × List (Option Binding)) → Pta → TeeResult × Pta
with_worker id none s = (tee_generic, s)
with_worker id (some (i, ws)) s =
    opened id (record { kind = worker; router_worker = some i; npf_worker = false })
      (record s { worker = ws })

-- `npf` says whether NPF has its worker to give.
unfoldable pub open_as : Option Kind → Bool → Bool → ℕ → Pta → TeeResult × Pta
unfolding bind_to_worker
open_as none allocated npf id s = (tee_bad_parameters, s)
open_as (some k) false npf id s = (tee_out_of_memory, s)
open_as (some unbound) true npf id s =
    opened id (record { kind = unbound; router_worker = none; npf_worker = false }) s
open_as (some cleaner) true npf id s =
    if s.started && npf
    then opened id (record { kind = cleaner; router_worker = none; npf_worker = true }) s
    else (tee_generic, s)
open_as (some worker) true npf id s = with_worker id (bind_to_worker id s) s

-- `open_session`, for OP-TEE's number of the new session. A session that is refused leaves none; the
-- code then frees the wrong pointer. The parameters have to be one value that is given in.
unfoldable pub open_session : ℕ → ℕ → Bool → Bool → ℕ → Pta → TeeResult × Pta
unfolding open_as kind_of
open_session param_types sess_type allocated npf id s =
    if param_types != 1
    then (tee_bad_parameters, s)
    else open_as (kind_of sess_type) allocated npf id s

-- The workers when a session ends. A cleaner's worker goes back to NPF.
unfoldable pub released_as : Kind → Option ℕ → List (Option Binding) → List (Option Binding)
unfolding detach_nw_from_worker
released_as unbound i ws = ws
released_as cleaner i ws = ws
released_as worker i ws = detach_nw_from_worker i ws

abbrev pub close_open : Option Session → ℕ → Pta → Pta
close_open none id s = s
close_open (some sess) id s = record s {
  worker = released_as sess.kind sess.router_worker s.worker;
  sessions = put s.sessions id none;
}

unfoldable pub close_session : ℕ → Pta → Pta
unfolding released_as
close_session id s = close_open (s.sessions id) id s

-- `worker_get_number`, with -1 as the caller reads it.
unfoldable pub worker_get_number : Pta → ℕ
worker_get_number s = if s.started then length s.worker else 0xffffffff
