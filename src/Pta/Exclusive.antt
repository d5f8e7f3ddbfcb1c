-- ===== src/Pta/Exclusive.antt =====
-- The workers and the sessions that are bound to them.
use trusted_gateway.Prelude.{
  ℕ, zero, suc, ◌≡◌, ◌≢◌, ◌⊎◌, inl, inr, refl, ap, sym, ◌∙◌, Bool, true, false, ◌&&◌, List, [], ◌∷◌,
  Option, none, some, some_inj, arith, ◌==◌, ==→eq, ◌!=◌, Bool-cases, Option-cases,
}
use trusted_gateway.Pta.Sessions.{
  Kind, unbound, cleaner, worker, Session, Binding, Pta, bind_first, bind_to_worker, unbind, behind,
  opened, with_worker, kind_of, open_as, open_session, released_as, close_session,
}

-- The session that a worker is bound to.
abbrev pub owner : List (Option Binding) → ℕ → Option ℕ
owner [] i = none
owner (none ∷ ws) zero = none
owner (some b ∷ ws) zero = b
owner (w ∷ ws) (suc i) = owner ws i

-- Binding a session gives it a worker that was free, and leaves the others.
abbrev Bound : ℕ → List (Option Binding) → Option (ℕ × List (Option Binding)) → Type 0
Bound id ws none = Unit
Bound id ws (some (i, ws')) =
    (owner ws i ≡ none) × (owner ws' i ≡ some id) × ((j : ℕ) → j ≢ i → owner ws' j ≡ owner ws j)

behind-Bound :
    (id : ℕ) (w : Option Binding) (ws : List (Option Binding))
    (r : Option (ℕ × List (Option Binding)))
    → Bound id ws r
    → Bound id (w ∷ ws) (behind w r)
behind-Bound id w ws none h = tt
behind-Bound id none ws (some (i, ws')) (free, mine, others) = (free, mine, shifted)
  where
    shifted : (j : ℕ) → j ≢ suc i → owner (none ∷ ws') j ≡ owner (none ∷ ws) j
    shifted zero ne = refl
    shifted (suc j) ne = others j (λ e. ne (ap suc e))
behind-Bound id (some b) ws (some (i, ws')) (free, mine, others) = (free, mine, shifted)
  where
    shifted : (j : ℕ) → j ≢ suc i → owner (some b ∷ ws') j ≡ owner (some b ∷ ws) j
    shifted zero ne = refl
    shifted (suc j) ne = others j (λ e. ne (ap suc e))

bind_first-Bound : (id : ℕ) (ws : List (Option Binding)) → Bound id ws (bind_first id ws)
unfolding bind_first
bind_first-Bound id [] = tt
bind_first-Bound id (none ∷ ws) =
    behind-Bound id none ws (bind_first id ws) (bind_first-Bound id ws)
bind_first-Bound id (some none ∷ ws) = (refl, refl, behind_it)
  where
    behind_it : (j : ℕ) → j ≢ 0 → owner (some (some id) ∷ ws) j ≡ owner (some none ∷ ws) j
    behind_it zero ne = absurd (ne refl)
    behind_it (suc j) ne = refl
bind_first-Bound id (some (some b) ∷ ws) =
    behind-Bound id (some (some b)) ws (bind_first id ws) (bind_first-Bound id ws)

unbind_lem : (i j : ℕ) (ws : List (Option Binding)) → j ≢ i → owner (unbind i ws) j ≡ owner ws j
unfolding unbind
unbind_lem i j [] ne = refl
unbind_lem zero zero (none ∷ ws) ne = refl
unbind_lem zero zero (some b ∷ ws) ne = absurd (ne refl)
unbind_lem zero (suc j) (none ∷ ws) ne = refl
unbind_lem zero (suc j) (some b ∷ ws) ne = refl
unbind_lem (suc i) zero (none ∷ ws) ne = refl
unbind_lem (suc i) zero (some b ∷ ws) ne = refl
unbind_lem (suc i) (suc j) (w ∷ ws) ne = unbind_lem i j ws (λ e. ne (ap suc e))

-- Each open worker session has a worker, and it is bound to that session.
abbrev pub HasOwn : Pta → Type 0
HasOwn s =
    (id : ℕ) (sess : Session)
    → s.sessions id ≡ some sess
    → sess.kind ≡ worker
    → (i : ℕ) × (sess.router_worker ≡ some i) × (owner s.worker i ≡ some id)

other_worker :
    (ws : List (Option Binding)) (i j : ℕ) (b : Option ℕ) → owner ws i ≡ b → owner ws j ≢ b → j ≢ i
other_worker ws i j b e ne same = ne (ap (owner ws) same ∙ e)

-- A new session that is no worker's leaves the others.
plain-HasOwn :
    (id : ℕ) (k : Kind) (n : Bool) (s : Pta)
    → HasOwn s
    → k ≢ worker
    → HasOwn (opened id (record { kind = k; router_worker = none; npf_worker = n }) s).1
plain-HasOwn id k n s own ne id' sess e is_worker = elim (Bool-cases (id == id')) [
  | inl same ↦ absurd (ne (ap (λ t. t.kind) (some_inj (rw same at e)) ∙ is_worker))
  | inr other ↦ own id' sess (rw other at e) is_worker
]

with_worker-HasOwn :
    (id : ℕ) (s : Pta) (r : Option (ℕ × List (Option Binding)))
    → HasOwn s
    → Bound id s.worker r
    → HasOwn (with_worker id r s).1
with_worker-HasOwn id s none own b = own
with_worker-HasOwn id s (some (i, ws)) own (free, mine, others) = λ id' sess e is_worker.
    elim (Bool-cases (id == id')) [
      | inl same ↦ (
        i,
        sym (ap (λ t. t.router_worker) (some_inj (rw same at e))),
        mine ∙ ap some (==→eq id id' same),
      )
      | inr other ↦
          let (j, has, bound) = own id' sess (rw other at e) is_worker in
          (j, has, others j (other_worker s.worker i j none free (taken j id' bound)) ∙ bound)
    ]
  where
    taken : (j id' : ℕ) → owner s.worker j ≡ some id' → owner s.worker j ≢ none
    taken j id' bound e = absurd (cc)

open_as-HasOwn :
    (k : Option Kind) (allocated npf : Bool) (id : ℕ) (s : Pta)
    → HasOwn s
    → HasOwn (open_as k allocated npf id s).1
unfolding open_as bind_to_worker
open_as-HasOwn none allocated npf id s own = own
open_as-HasOwn (some k) false npf id s own = own
open_as-HasOwn (some unbound) true npf id s own =
    plain-HasOwn id unbound false s own (λ e. absurd (cc))
open_as-HasOwn (some cleaner) true npf id s own = elim (Bool-cases (s.started && npf)) [
  | inl e ↦ rw e (plain-HasOwn id cleaner true s own (λ d. absurd (cc)))
  | inr e ↦ rw e own
]
open_as-HasOwn (some worker) true npf id s own = elim (Bool-cases s.started) [
  | inl e ↦
      simp e (with_worker-HasOwn id s (bind_first id s.worker) own (bind_first-Bound id s.worker))
  | inr e ↦ simp e own
]

open_session-HasOwn :
    (param_types sess_type : ℕ) (allocated npf : Bool) (id : ℕ) (s : Pta)
    → HasOwn s
    → HasOwn (open_session param_types sess_type allocated npf id s).1
unfolding open_session
open_session-HasOwn param_types sess_type allocated npf id s own =
    elim (Bool-cases (param_types != 1)) [
      | inl e ↦ rw e own
      | inr e ↦ rw e (open_as-HasOwn (kind_of sess_type) allocated npf id s own)
    ]

-- The bindings of the other sessions when one that is a worker's ends.
released_others :
    (k : Kind) (w : Option ℕ) (ws : List (Option Binding)) (id id' j : ℕ)
    → (k ≡ worker → (i : ℕ) × (w ≡ some i) × (owner ws i ≡ some id))
    → id ≢ id'
    → owner ws j ≡ some id'
    → owner (released_as k w ws) j ≡ some id'
unfolding released_as
released_others unbound w ws id id' j own ne bound = bound
released_others cleaner w ws id id' j own ne bound = bound
released_others worker w ws id id' j own ne bound =
    let (i, is_i, mine) = own refl in
    rw is_i (
      unbind_lem i j ws (λ same. ne (some_inj (sym mine ∙ ap (owner ws) (sym same) ∙ bound)))
      ∙ bound)

close_session-HasOwn : (id : ℕ) (s : Pta) → HasOwn s → HasOwn (close_session id s)
unfolding close_session
close_session-HasOwn id s own = elim (Option-cases (s.sessions id)) [
  | inl e ↦ rw e own
  | inr (gone, e) ↦ rw e (λ id' sess e' is_worker. elim (Bool-cases (id == id')) [
    | inl same ↦ absurd (cc (rw same at e'))
    | inr other ↦
        let (j, has, bound) = own id' sess (rw other at e') is_worker in
        (
          j,
          has,
          released_others gone.kind gone.router_worker s.worker id id' j (own id gone e)
              (ground (arith, other)) bound,
        )
  ])
]

-- What OP-TEE may call, in which order: a new session gets a number that no open session has.
pub data Step : Pta → Pta → Type 0 where
  opens :
      (s : Pta) (param_types sess_type : ℕ) (allocated npf : Bool) (id : ℕ)
      → s.sessions id ≡ none
      → Step s (open_session param_types sess_type allocated npf id s).1
  closes : (s : Pta) (id : ℕ) → Step s (close_session id s)

pub data Reach (s : Pta) : Pta → Type 0 where
  start : Reach s s
  step : {t u : Pta} → Reach s t → Step t u → Reach s u

Reach-HasOwn : {s t : Pta} → HasOwn s → Reach s t → HasOwn t
Reach-HasOwn own start = own
Reach-HasOwn own (step r (opens s types sess allocated npf id fresh)) =
    open_session-HasOwn types sess allocated npf id s (Reach-HasOwn own r)
Reach-HasOwn own (step r (closes s id)) = close_session-HasOwn id s (Reach-HasOwn own r)

-- From a router without sessions on, whichever sessions are opened and closed, in whichever order: an
-- open worker session has a worker, which is bound to it, so that its command to run finds one; and
-- two open worker sessions that are not the same have different workers, so that no two threads of
-- the normal world run one worker.
pub Reach-Exclusive :
    (s t : Pta) (id id' : ℕ) (a b : Session)
    → ((n : ℕ) → s.sessions n ≡ none)
    → Reach s t
    → t.sessions id ≡ some a
    → t.sessions id' ≡ some b
    → a.kind ≡ worker
    → b.kind ≡ worker
    → ((i : ℕ) × (a.router_worker ≡ some i) × (owner t.worker i ≡ some id))
      × ((id ≡ id') ⊎ (a.router_worker ≢ b.router_worker))
Reach-Exclusive s t id id' a b fresh r e e' k k' =
    let own = Reach-HasOwn (λ n sess e k. absurd (cc (fresh n))) r in
    let (j, has, bound) = own id a e k in
    let (j', has', bound') = own id' b e' k' in
    (
      own id a e k,
      elim (Bool-cases (id == id')) [
        | inl same ↦ inl (==→eq id id' same)
        | inr other ↦ inr (λ w.
            let same : j ≡ j' = some_inj (sym has ∙ w ∙ has') in
            absurd
              (ground (arith, other, some_inj (sym bound ∙ ap (owner t.worker) same ∙ bound'))))
      ],
    )
