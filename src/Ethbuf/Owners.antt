-- ===== src/Ethbuf/Owners.antt =====
-- Each buffer is in one of the two lists, once.
use trusted_gateway.Prelude.{
  ℕ, suc, ◌+◌, ◌-◌, ◌≤◌, ◌<◌, ◌≡◌, ◌≢◌, ◌⊎◌, inl, inr, refl, ap, sym, subst, ◌∙◌, List, [], ◌∷◌,
  Outcome, ok, panic, out_of_memory, Ensures, Returns, ◌>>=◌, arith, length, ◌==◌, if◌then◌else◌,
  ==_iff, Bool-cases, Outcome-cases,
}
use trusted_gateway.Ethbuf.Pool.{
  Pool, bstgw_ethpool_init, without, insert_all, bstgw_ethpool_increase, bstgw_ethpool_buf_alloc,
  bstgw_ethpool_buf_free, bstgw_ethpool_buf_destroy,
}

-- How often a list has a buffer.
abbrev pub times : ℕ → List ℕ → ℕ
times x [] = 0
times x (y ∷ ys) = (if x == y then 1 else 0) + times x ys

pub record Inv (p : Pool) : Type 0 where
  pub once : (x : ℕ) → times x p.free_list + times x p.inuse_list ≤ 1
  pub counted : length p.free_list + length p.inuse_list ≡ p.capacity

times-without_self : (x : ℕ) (ys : List ℕ) → times x (without x ys) ≡ times x ys - 1
times-without_self x [] = refl
times-without_self x (y ∷ ys) = ground (arith, times-without_self x ys)

times-without_ne : (z x : ℕ) (ys : List ℕ) → z ≢ x → times z (without x ys) ≡ times z ys
times-without_ne z x [] h = refl
times-without_ne z x (y ∷ ys) h = ground (arith, times-without_ne z x ys h)

length-without_in : (x : ℕ) (ys : List ℕ) → 0 < times x ys → suc (length (without x ys)) ≡ length ys
length-without_in x [] h = absurd (omega arith)
length-without_in x (y ∷ ys) h = ground (arith, length-without_in x ys)

length-without_out : (x : ℕ) (ys : List ℕ) → times x ys ≡ 0 → without x ys ≡ ys
length-without_out x [] h = refl
length-without_out x (y ∷ ys) h = ground (arith, length-without_out x ys)

List-cases : (xs : List ℕ) → (xs ≡ []) ⊎ ((y : ℕ) × (ys : List ℕ) × (xs ≡ y ∷ ys))
List-cases [] = inl refl
List-cases (y ∷ ys) = inr (y, ys, refl)

-- The calls of the pool's clients. A buffer is given back or destroyed by the one that has it, and
-- `malloc` answers new addresses.
pub data Call : Type 0 where
  increase : ℕ → Call
  alloc : Call
  free destroy : ℕ → Call

unfoldable pub call : Call → Pool → Outcome Pool
unfolding bstgw_ethpool_increase bstgw_ethpool_buf_alloc bstgw_ethpool_buf_free
    bstgw_ethpool_buf_destroy
call (increase eb) p = ok (bstgw_ethpool_increase (eb ∷ []) p)
call alloc p = bstgw_ethpool_buf_alloc p >>= λ r. ok r.1
call (free eb) p = ok (bstgw_ethpool_buf_free eb p)
call (destroy eb) p = ok (bstgw_ethpool_buf_destroy eb p)

abbrev pub Legal : Call → Pool → Type 0
Legal (increase eb) p = (times eb p.free_list ≡ 0) × (times eb p.inuse_list ≡ 0)
Legal alloc p = Unit {0}
Legal (free eb) p = times eb p.inuse_list ≡ 1
Legal (destroy eb) p = times eb p.inuse_list ≡ 1

-- What taking a buffer out of its list leaves: the others as they were.
times-without :
    (x eb : ℕ) (ys : List ℕ)
    → ((x ≡ eb) × (times x ys ≡ times eb ys) × (times x (without eb ys) ≡ times x ys - 1))
      ⊎ ((x ≢ eb) × (times x (without eb ys) ≡ times x ys))
times-without x eb ys = elim (Bool-cases (x == eb)) [
  | inl t ↦
      let e = (==_iff x eb).0 t in
      inl (
        e,
        ap (λ z. times z ys) e,
        subst (λ z. times x (without z ys) ≡ times x ys - 1) e (times-without_self x ys),
      )
  | inr f ↦ let h : x ≢ eb = ground (arith, f) in inr (h, times-without_ne x eb ys h)
]

-- Handing a buffer of one of the two lists on to a list with one buffer more.
gone-Inv :
    (eb : ℕ) (p : Pool)
    → times eb p.inuse_list ≡ 1
    → Inv p
    → (length (without eb p.free_list) ≡ length p.free_list)
      × (suc (length (without eb p.inuse_list)) ≡ length p.inuse_list)
gone-Inv eb p h v = (
  ap length (length-without_out eb p.free_list (omega (arith, v.once eb, h))),
  length-without_in eb p.inuse_list (omega (arith, h)),
)

free-Inv :
    (eb : ℕ) (p : Pool) → times eb p.inuse_list ≡ 1 → Inv p → Inv (bstgw_ethpool_buf_free eb p)
unfolding bstgw_ethpool_buf_free
free-Inv eb p h v = record {
  once = λ x.
      ground (arith, times-without x eb p.free_list, times-without x eb p.inuse_list, v.once x, h);
  counted = omega (arith, gone-Inv eb p h v, v.counted);
}

destroy-Inv :
    (eb : ℕ) (p : Pool) → times eb p.inuse_list ≡ 1 → Inv p → Inv (bstgw_ethpool_buf_destroy eb p)
unfolding bstgw_ethpool_buf_destroy
destroy-Inv eb p h v = record {
  once = λ x.
      ground (arith, times-without x eb p.free_list, times-without x eb p.inuse_list, v.once x);
  counted = omega (arith, gone-Inv eb p h v, v.counted);
}

-- What an allocation that returns takes.
abbrev Taking : Pool → ℕ × Pool → Type 0
Taking p r =
    (times r.0 p.free_list ≡ 1)
    × (times r.0 p.inuse_list ≡ 0)
    × (times r.0 r.1.inuse_list ≡ 1)
    × Inv r.1

alloc-Inv : (p : Pool) → Inv p → Ensures (Taking p) (bstgw_ethpool_buf_alloc p)
unfolding bstgw_ethpool_buf_alloc
alloc-Inv p v = elim (List-cases p.free_list) [
  | inl e ↦ rw e tt
  | inr (eb, ebs, e) ↦
      let here : times eb p.free_list ≡ 1 + times eb ebs = ap (times eb) e ∙ ground arith in
      rw e (
        ground (arith, here, v.once eb),
        ground (arith, here, v.once eb),
        ground (arith, here, v.once eb),
        record {
          once = λ x. ground (arith, ap (times x) e, v.once x);
          counted = omega (arith, ap length e, v.counted);
        },
      )
]

increase-Inv :
    (eb : ℕ) (p : Pool)
    → times eb p.free_list ≡ 0
    → times eb p.inuse_list ≡ 0
    → Inv p
    → Inv (bstgw_ethpool_increase (eb ∷ []) p)
unfolding bstgw_ethpool_increase insert_all
increase-Inv eb p h k v = record {
  once = λ x. ground (arith, v.once x, h, k);
  counted = omega (arith, v.counted);
}

pub data Reach : Pool → Type 0 where
  start : Reach bstgw_ethpool_init
  next : {p q : Pool} (c : Call) → Reach p → Legal c p → call c p ≡ ok q → Reach q

init-Inv : Inv bstgw_ethpool_init
unfolding bstgw_ethpool_init
init-Inv = record { once = λ x. omega arith; counted = refl }

call-Inv : (c : Call) (p : Pool) → Legal c p → Inv p → Ensures Inv (call c p)
unfolding call
call-Inv (increase eb) p l v = increase-Inv eb p l.0 l.1 v
call-Inv (free eb) p l v = free-Inv eb p l v
call-Inv (destroy eb) p l v = destroy-Inv eb p l v
call-Inv alloc p l v = elim (Outcome-cases (bstgw_ethpool_buf_alloc p)) [
  | inl (r, e) ↦ rw e (subst (Ensures (Taking p)) e (alloc-Inv p v)).3
  | inr (x, e) ↦ rw e tt
]

Reach-Inv : {p : Pool} → Reach p → Inv p
Reach-Inv start = init-Inv
Reach-Inv (next {p} c r l e) = subst (Ensures Inv) e (call-Inv c p l (Reach-Inv r))

-- The buffer was free and nobody's, and is now the caller's.
abbrev pub Owned : Pool → ℕ × Pool → Type 0
Owned p (eb, p') =
    (times eb p.free_list ≡ 1)
    × (times eb p.inuse_list ≡ 0)
    × (times eb p'.inuse_list ≡ 1)
    × (times eb p'.free_list ≡ 0)
    × Inv p'

alloc-Owned :
    (p : Pool)
    → Inv p
    → ((p.free_list ≡ []) × (bstgw_ethpool_buf_alloc p ≡ panic out_of_memory))
      ⊎ ((p.free_list ≢ []) × Returns (Owned p) (bstgw_ethpool_buf_alloc p))
alloc-Owned p v = elim (List-cases p.free_list) [
  | inl e ↦ inl (e, unfold bstgw_ethpool_buf_alloc in rw e refl)
  | inr (eb, ebs, e) ↦
      let fine : bstgw_ethpool_buf_alloc p ≡ ok (eb, handed eb ebs) =
        unfold bstgw_ethpool_buf_alloc in rw e refl in
      let (a, b, c, i) = subst (Ensures (Taking p)) fine (alloc-Inv p v) in
      let here : times eb p.free_list ≡ 1 + times eb ebs = ap (times eb) e ∙ ground arith in
      inr (
        λ n. empty (sym n ∙ e),
        subst (Returns (Owned p)) (sym fine) (a, b, c, omega (arith, a, here), i),
      )
]
  where
    handed : ℕ → List ℕ → Pool
    handed eb ebs = record p { free_list = ebs; inuse_list = eb ∷ p.inuse_list }

    empty : {y : ℕ} {ys : List ℕ} → [] ≡ y ∷ ys → ⊥
    empty n = absurd (cc n)

-- In every state that the pool's clients bring about, if they give back and destroy only what they
-- have and new buffers have new addresses, each buffer is in one list, once, and the pool's capacity
-- is their number. An allocation panics exactly if no buffer is free; otherwise it returns a buffer
-- that was free and that nobody had, which from then on is in use, and free no more.
pub bstgw_ethpool_buf_alloc-Owned :
    {p : Pool}
    → Reach p
    → Inv p
      × (((p.free_list ≡ []) × (bstgw_ethpool_buf_alloc p ≡ panic out_of_memory))
          ⊎ ((p.free_list ≢ []) × Returns (Owned p) (bstgw_ethpool_buf_alloc p)))
bstgw_ethpool_buf_alloc-Owned {p} r = (Reach-Inv r, alloc-Owned p (Reach-Inv r))
