-- ===== src/Pta/Access.antt =====
-- Who may run what.
use trusted_gateway.Prelude.{
  ℕ, ◌≡◌, ◌⊎◌, inl, inr, refl, ap, subst, sym, Bool, true, false, List, Option, none, some, Outcome,
  Ensures, arith, ◌==◌, ==→eq, ◌!=◌, ltb, length, Bool-cases, Option-cases,
}
use trusted_gateway.Pta.Sessions.{
  TeeResult, tee_success, tee_bad_parameters, tee_out_of_memory, tee_generic, tee_access_denied,
  tee_not_implemented, tee_bad_format, tee_short_buffer, Kind, unbound, cleaner, worker, Session,
}
use trusted_gateway.Pta.Commands.{
  Caller, Libs, Done, nothing, ran_cleaner, ran_worker, Reply, bstgw_called_by_trusted_app, answer,
  bstgw_npfctl_cmd, copy_out, replied, with_reply_list, with_request, trusted,
  bstgw_firewall_config, cmd_run_worker, no_params, value_out, only, invoke_command,
}

module _ {C Nv : Type 0} (lib : Libs C Nv) where
  -- What a command may do in a session.
  abbrev pub MayRun : Session → ℕ → Done → Type 0
  MayRun sess param_types nothing = Unit
  MayRun sess param_types ran_cleaner = (sess.kind ≡ cleaner) × (param_types ≡ 0)
  MayRun sess param_types (ran_worker i) =
      (sess.kind ≡ worker) × (sess.router_worker ≡ some i) × (param_types ≡ 0)

  abbrev pub MayConfigure : Session → Caller → ℕ → ℕ → Type 0
  MayConfigure sess caller cmd_id param_types =
      (sess.kind ≡ unbound)
      × (cmd_id ≡ 0)
      × (caller ≡ some (true, lib.web_stub_uuid))
      × (param_types ≡ 0x65)

  abbrev pub Allowed : Session → Caller → ℕ → ℕ → C → Reply C → Type 0
  Allowed sess caller cmd_id param_types c r =
      MayRun sess param_types r.done
      × ((r.config ≡ c) ⊎ MayConfigure sess caller cmd_id param_types)

  only-Ensures :
      (P : Reply C → Type 0) (k k' : Kind) (o : Outcome (Reply C)) (c : C)
      → (k' ≡ k → Ensures P o)
      → P (answer lib tee_access_denied c)
      → Ensures P (only lib k k' o c)
  unfolding only
  only-Ensures P unbound unbound o c f h = f refl
  only-Ensures P cleaner cleaner o c f h = f refl
  only-Ensures P worker worker o c f h = f refl
  only-Ensures P unbound cleaner o c f h = h
  only-Ensures P unbound worker o c f h = h
  only-Ensures P cleaner unbound o c f h = h
  only-Ensures P cleaner worker o c f h = h
  only-Ensures P worker unbound o c f h = h
  only-Ensures P worker cleaner o c f h = h

  called_lem :
      (ref : ℕ) (caller : Caller)
      → bstgw_called_by_trusted_app ref caller ≡ tee_success
      → caller ≡ some (true, ref)
  unfolding bstgw_called_by_trusted_app
  called_lem ref none e = absurd (cc)
  called_lem ref (some (false, uuid)) e = absurd (cc)
  called_lem ref (some (true, uuid)) e = elim (Bool-cases (uuid != ref)) [
    | inl d ↦ absurd (cc (rw d at e))
    | inr d ↦ ap (λ u. some (true, u)) (ground (arith, d))
  ]

  -- Nothing is run for a configuration.
  copy_out_done :
      (packed : Option (List ℕ)) (room : ℕ) (c : C) → (copy_out lib packed room c).done ≡ nothing
  copy_out_done none room c = refl
  copy_out_done (some packed) room c = elim (Bool-cases (ltb room (length packed))) [
    | inl e ↦ rw e refl
    | inr e ↦ rw e refl
  ]

  replied_done : (room : ℕ) (p : Option Nv × C) → (replied lib room p).done ≡ nothing
  replied_done room (none, c) = refl
  replied_done room (some reply, c) = copy_out_done (lib.nvlist_pack reply) room c

  with_reply_list_done :
      (ready : Bool) (empty : Option Nv) (req : Nv) (room : ℕ) (c : C)
      → (with_reply_list lib ready empty req room c).done ≡ nothing
  with_reply_list_done ready none req room c = refl
  with_reply_list_done ready (some empty) req room c =
      replied_done room (bstgw_npfctl_cmd lib ready (lib.operation req) req c)

  with_request_done :
      (ready : Bool) (req : Option Nv) (room : ℕ) (c : C)
      → (with_request lib ready req room c).done ≡ nothing
  with_request_done ready none room c = refl
  with_request_done ready (some req) room c =
      with_reply_list_done ready lib.nvlist_create req room c

  abbrev Configured : Caller → ℕ → C → Reply C → Type 0
  Configured caller param_types c r =
      (r.done ≡ nothing)
      × ((r.config ≡ c) ⊎ ((caller ≡ some (true, lib.web_stub_uuid)) × (param_types ≡ 0x65)))

  config-Configured :
      (caller : Caller) (ready : Bool) (param_types : ℕ) (req : List ℕ) (room : ℕ) (c : C)
      → Configured caller param_types c
          (bstgw_firewall_config lib caller ready param_types req room c)
  unfolding bstgw_firewall_config
  config-Configured caller ready param_types req room c =
      settle (bstgw_called_by_trusted_app lib.web_stub_uuid caller) refl
    where
      settle :
          (res : TeeResult)
          → bstgw_called_by_trusted_app lib.web_stub_uuid caller ≡ res
          → Configured caller param_types c (trusted lib res ready param_types req room c)
      settle tee_success e = elim (Bool-cases (param_types != 0x65)) [
        | inl d ↦ rw d (refl, inl refl)
        | inr d ↦ rw d (
          with_request_done ready (lib.nvlist_unpack req) room c,
          inr (called_lem lib.web_stub_uuid caller e, ground (arith, d)),
        )
      ]
      settle tee_bad_parameters e = (refl, inl refl)
      settle tee_out_of_memory e = (refl, inl refl)
      settle tee_generic e = (refl, inl refl)
      settle tee_access_denied e = (refl, inl refl)
      settle tee_not_implemented e = (refl, inl refl)
      settle tee_bad_format e = (refl, inl refl)
      settle tee_short_buffer e = (refl, inl refl)

  Configured-Allowed :
      (sess : Session) (caller : Caller) (param_types : ℕ) (c : C) (r : Reply C)
      → sess.kind ≡ unbound
      → Configured caller param_types c r
      → Allowed sess caller 0 param_types c r
  Configured-Allowed sess caller param_types c r u (d, inl same) =
      (subst (MayRun sess param_types) (sym d) tt, inl same)
  Configured-Allowed sess caller param_types c r u (d, inr (by, types)) =
      (subst (MayRun sess param_types) (sym d) tt, inr (u, refl, by, types))

  value-Allowed :
      (sess : Session) (caller : Caller) (cmd_id param_types n : ℕ) (c : C)
      → Allowed sess caller cmd_id param_types c (value_out lib param_types n c)
  value-Allowed sess caller cmd_id param_types n c = elim (Bool-cases (param_types != 2)) [
    | inl e ↦ rw e (tt, inl refl)
    | inr e ↦ rw e (tt, inl refl)
  ]

  -- A command runs the cleaner only in a session of that type; a worker only in a session that is
  -- bound to it; and it changes the firewall's configuration only in a session of neither type, by the
  -- configuration command with its own parameters, for the trusted application with the web stub's
  -- UUID. All other calls, those of the normal world among them, leave the configuration as it is.
  pub invoke_command-Allowed :
      (sess : Session) (n : ℕ) (caller : Caller) (ready : Bool) (cmd_id param_types : ℕ)
      (req : List ℕ) (room : ℕ) (c : C)
      → Ensures
          (Allowed sess caller cmd_id param_types c)
          (invoke_command lib sess n caller ready cmd_id param_types req room c)
  unfolding invoke_command
  invoke_command-Allowed sess n caller ready cmd_id param_types req room c =
      elim (Bool-cases (cmd_id == 0)) [
        | inl e ↦ rw e (
            guarded unbound _ λ u.
              let is_config = ==→eq cmd_id 0 e in
              subst
                (λ i.
                  Allowed sess caller i param_types c
                    (bstgw_firewall_config lib caller ready param_types req room c))
                (sym is_config)
                (Configured-Allowed sess caller param_types c
                  (bstgw_firewall_config lib caller ready param_types req room c) u
                  (config-Configured caller ready param_types req room c)))
        | inr e ↦ elim (Bool-cases (cmd_id == 1)) [
          | inl e1 ↦
              rw (e, e1) (guarded unbound _ λ u. value-Allowed sess caller cmd_id param_types n c)
          | inr e1 ↦ elim (Bool-cases (cmd_id == 4)) [
            | inl e4 ↦
                rw (e, e1, e4)
                  (guarded unbound _ λ u. value-Allowed sess caller cmd_id param_types 0 c)
            | inr e4 ↦ elim (Bool-cases (cmd_id == 2)) [
              | inl e2 ↦
                  rw (e, e1, e4, e2)
                    (guarded cleaner _ λ k. unparametrised _ λ p. ((k, p), inl refl))
              | inr e2 ↦ elim (Bool-cases (cmd_id == 3)) [
                | inl e3 ↦
                    rw (e, e1, e4, e2, e3)
                      (guarded worker _ λ k. unparametrised _ λ p. runs_own k p)
                | inr e3 ↦ rw (e, e1, e4, e2, e3) (tt, inl refl)
              ]
            ]
          ]
        ]
      ]
    where
      guarded :
          (k : Kind) (o : Outcome (Reply C))
          → (sess.kind ≡ k → Ensures (Allowed sess caller cmd_id param_types c) o)
          → Ensures (Allowed sess caller cmd_id param_types c) (only lib k sess.kind o c)
      guarded k o f =
          only-Ensures (Allowed sess caller cmd_id param_types c) k sess.kind o c f (tt, inl refl)

      unparametrised :
          (o : Outcome (Reply C))
          → (param_types ≡ 0 → Ensures (Allowed sess caller cmd_id param_types c) o)
          → Ensures (Allowed sess caller cmd_id param_types c) (no_params lib param_types o c)
      unparametrised o f = elim (Bool-cases (param_types != 0)) [
        | inl e ↦ rw e (tt, inl refl)
        | inr e ↦ rw e (f (ground (arith, e)))
      ]

      runs_own :
          sess.kind ≡ worker
          → param_types ≡ 0
          → Ensures
              (Allowed sess caller cmd_id param_types c)
              (cmd_run_worker lib sess.router_worker c)
      runs_own k p = elim (Option-cases sess.router_worker) [
        | inl e ↦ rw e tt
        | inr (i, e) ↦ rw e ((k, refl, p), inl refl)
      ]
