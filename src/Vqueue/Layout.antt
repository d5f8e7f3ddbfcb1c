-- ===== src/Vqueue/Layout.antt =====
-- Where the parts of a vring lie, and its life from initialisation through set-ups and tear-downs.
use trusted_gateway.Prelude.{
  ℕ, ◌≡◌, ◌≢◌, refl, true, false, List, [], ◌∷◌, map, Outcome, ok, Ensures, Returns, ◌>>=◌, arith,
  Outcome-cases, inl, inr, subst,
}
use trusted_gateway.Vqueue.State.{Vqueue, Status, Iov}
use trusted_gateway.Vqueue.Setup.{
  Mmu, vqueue_init, setup_rings, vqueue_vring_setup, vqueue_vring_teardown, avail_of, used_of,
  vring_size,
}
use trusted_gateway.Vqueue.Iovs.{map_from, unmap_from, with_base}

-- Without a vring the three pointers are NULL; with one they follow from its address.
pub record IsValid (vq : Vqueue) : Type 0 where
  pub closed_desc : vq.vring_addr ≡ 0 → vq.desc_ptr ≡ 0
  pub closed_avail : vq.vring_addr ≡ 0 → vq.avail_ptr ≡ 0
  pub closed_used : vq.vring_addr ≡ 0 → vq.used_ptr ≡ 0
  pub open_desc : vq.vring_addr ≢ 0 → vq.desc_ptr ≡ vq.vring_addr
  pub open_avail : vq.vring_addr ≢ 0 → vq.avail_ptr ≡ avail_of vq.num vq.vring_addr
  pub open_used : vq.vring_addr ≢ 0 → vq.used_ptr ≡ used_of vq.num vq.vring_align vq.vring_addr

pub init-IsValid : (id num align : ℕ) → IsValid (vqueue_init id num align)
unfolding vqueue_init
init-IsValid id num align = ground arith

setup_rings-IsValid :
    (va : ℕ → ℕ) (vq : Vqueue) (vaddr avail_pa used_pa : ℕ)
    → vaddr ≢ 0
    → IsValid (setup_rings va vq vaddr avail_pa used_pa).1
unfolding setup_rings
setup_rings-IsValid va vq vaddr avail_pa used_pa h = ground arith

setup-IsValid :
    (mmu : Mmu) (vq : Vqueue) (d a u : ℕ)
    → IsValid vq
    → Ensures (λ (r : Status × Vqueue). IsValid r.1) (vqueue_vring_setup mmu vq d a u)
unfolding vqueue_vring_setup
setup-IsValid mmu vq d a u v = ground (
  arith,
  setup_rings-IsValid mmu.va_before (record vq { vring_sz = vring_size vq.num vq.vring_align })
      (mmu.va_before d) a u,
  setup_rings-IsValid mmu.va_after (record vq { vring_sz = vring_size vq.num vq.vring_align })
      (mmu.va_after d) a u,
)

-- The calls that the device makes on a queue.
pub data Call : Type 0 where
  setup : Mmu → ℕ → ℕ → ℕ → Call
  teardown : Call

unfoldable pub call : Call → Vqueue → Outcome Vqueue
call (setup mmu d a u) vq = vqueue_vring_setup mmu vq d a u >>= λ r. ok r.1
call teardown vq = vqueue_vring_teardown vq

abbrev pub Closed : Vqueue → Type 0
Closed vq =
    IsValid vq
    × (vq.vring_addr ≡ 0)
    × (vq.desc_ptr ≡ 0)
    × (vq.avail_ptr ≡ 0)
    × (vq.used_ptr ≡ 0)
    × (vq.last_avail_idx ≡ 0)

teardown-Closed : (vq : Vqueue) → IsValid vq → Returns Closed (vqueue_vring_teardown vq)
unfolding vqueue_vring_teardown
teardown-Closed vq v = ground arith

call-IsValid : (c : Call) (vq : Vqueue) → IsValid vq → Ensures IsValid (call c vq)
unfolding call
call-IsValid (setup mmu d a u) vq v = ground (arith, setup-IsValid mmu vq d a u)
call-IsValid teardown vq v = ground (arith, teardown-Closed vq)

unfoldable pub run : List Call → Vqueue → Outcome Vqueue
run [] vq = ok vq
run (c ∷ cs) vq = call c vq >>= λ vq'. run cs vq'

run-IsValid : (cs : List Call) (vq : Vqueue) → IsValid vq → Ensures IsValid (run cs vq)
unfolding run
run-IsValid [] vq v = v
run-IsValid (c ∷ cs) vq v = elim (Outcome-cases (call c vq)) [
  | inl (vq', e) ↦ rw e (run-IsValid cs vq' (subst (Ensures IsValid) e (call-IsValid c vq v)))
  | inr (x, e) ↦ rw e tt
]

-- After any set-ups, failed ones too, and tear-downs of an initialised queue, a tear-down returns:
-- its assertions hold. It leaves a queue without a vring, all of whose pointers are NULL.
pub vqueue_vring_teardown-Closed :
    (id num align : ℕ) (cs : List Call) {vq : Vqueue}
    → run cs (vqueue_init id num align) ≡ ok vq
    → Returns Closed (vqueue_vring_teardown vq)
vqueue_vring_teardown-Closed id num align cs {vq} e = teardown-Closed vq (
    subst (Ensures IsValid) e
      (run-IsValid cs (vqueue_init id num align) (init-IsValid id num align)))

-- The mapped entries, if every physical address has a virtual one.
abbrev pub mapped : (ℕ → ℕ) → List Iov → List Iov
mapped va = map (λ v. with_base (va v.phys) v)

abbrev pub unmapped : List Iov → List Iov
unmapped = map (with_base 0)

-- A mapping that succeeds gives each entry the address of its own page, none of which is NULL, and
-- can be undone: unmapping returns, and leaves every base NULL.
pub unmap-map :
    (va : ℕ → ℕ) (vs : List Iov)
    → (map_from va vs).1 ≡ true
    → ((map_from va vs).0 ≡ mapped va vs) × (unmap_from (map_from va vs).0 ≡ ok (unmapped vs))
unfolding map_from unmap_from
unmap-map va [] h = (refl, refl)
unmap-map va (v ∷ vs) h = ground (arith, unmap-map va vs)

-- A mapping that fails leaves no entry mapped, if none was before.
pub map_fails :
    (va : ℕ → ℕ) (vs : List Iov)
    → (map_from va vs).1 ≡ false
    → unmapped vs ≡ vs
    → (map_from va vs).0 ≡ vs
unfolding map_from
map_fails va [] h u = refl
map_fails va (v ∷ vs) h u = ground (arith, map_fails va vs)
