-- ===== src/Vqueue/Iovs.antt =====
-- `vqueue_map_iovs` and `vqueue_unmap_iovs`: the virtual addresses of a buffer's entries.
use trusted_gateway.Prelude.{
  ℕ, Bool, true, false, List, [], ◌∷◌, Outcome, ok, panic, bad_argument, if◌then◌else◌, ◌==◌, ltb,
  ◌>>=◌,
}
use trusted_gateway.Vqueue.State.{Iov, Iovs}

abbrev pub with_base : ℕ → Iov → Iov
with_base va v = record v { base = va }

-- The loop of `vqueue_map_iovs`: the entries mapped so far and those that are left, or the entries
-- as the error path leaves them, in which those that were mapped are unmapped again.
module _ (get_va : ℕ → ℕ) where
  unfoldable pub map_from : List Iov → List Iov × Bool
  map_from [] = ([], true)
  map_from (v ∷ vs) =
      let (vs', done) = map_from vs in
      if get_va v.phys == 0
      then (with_base 0 v ∷ vs, false)
      else (if done
          then (with_base (get_va v.phys) v ∷ vs', true)
          else (with_base 0 v ∷ vs', false))

  -- The result is `some` list for NO_ERROR. On the error path the code returns a variable that it
  -- never assigned.
  unfoldable pub vqueue_map_iovs : Iovs → Outcome (Iovs × Bool)
  unfolding map_from
  vqueue_map_iovs l =
      let (vs, done) = map_from l.iovs in
      if ltb l.cnt l.used then panic bad_argument else ok (record l { iovs = vs }, done)

-- The code asserts that each base is set.
unfoldable pub unmap_from : List Iov → Outcome (List Iov)
unmap_from [] = ok []
unmap_from (v ∷ vs) =
    if v.base == 0 then panic bad_argument else (unmap_from vs >>= λ vs'. ok (with_base 0 v ∷ vs'))

unfoldable pub vqueue_unmap_iovs : Iovs → Outcome Iovs
unfolding unmap_from
vqueue_unmap_iovs l =
    if ltb l.cnt l.used
    then panic bad_argument
    else (unmap_from l.iovs >>= λ vs. ok (record l { iovs = vs }))
