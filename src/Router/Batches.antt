-- ===== src/Router/Batches.antt =====
-- The arrays of a burst, one for each interface, and the eight bits that mark those in use.
use trusted_gateway.Prelude.{
  ℕ, zero, suc, ◌+◌, ◌*◌, ◌/◌, ◌%◌, ◌^◌, ◌≤◌, ◌<◌, ◌≡◌, inl, inr, refl, ap, ◌∙◌, false, List, [],
  ◌∷◌, ◌++◌, arith, ◌==◌, ==→eq, count, count-append, bit_or, max, Bool-cases,
}
use trusted_gateway.Prelude.Bits.{bit, bit-bit_or}
use trusted_gateway.Router.Input.{Batch, add_to, collect}

-- The first eight bits are those of the number modulo 256.
bit-mod : (j a : ℕ) → j < 8 → bit j (a % 256) ≡ bit j a
bit-mod zero a h = omega arith
bit-mod (suc zero) a h = omega arith
bit-mod (suc (suc zero)) a h = omega arith
bit-mod (suc (suc (suc zero))) a h = omega arith
bit-mod (suc (suc (suc (suc zero)))) a h = omega arith
bit-mod (suc (suc (suc (suc (suc zero))))) a h = omega arith
bit-mod (suc (suc (suc (suc (suc (suc zero)))))) a h = omega arith
bit-mod (suc (suc (suc (suc (suc (suc (suc zero))))))) a h = omega arith
bit-mod (suc (suc (suc (suc (suc (suc (suc (suc j)))))))) a h = absurd (omega arith)

pow_suc : (i : ℕ) → 2 ^ suc i ≡ 2 ^ i * 2
pow_suc i = omega arith

bit-pow_self : (i : ℕ) → bit i (2 ^ i) ≡ 1
bit-pow_self zero = refl
bit-pow_self (suc i) = ap (bit i) half ∙ bit-pow_self i
  where
    half : 2 ^ suc i / 2 ≡ 2 ^ i
    half = omega (arith, pow_suc i)

pub pow_pos : (i : ℕ) → 0 < 2 ^ i
pow_pos zero = omega arith
pow_pos (suc i) = omega (arith, pow_suc i, pow_pos i)

-- An interface with no bit has nothing in its array.
abbrev pub Marked : Batch → Type 0
Marked b = (j : ℕ) → j < 8 → bit j b.egr_idx ≡ 0 → b.arrays j ≡ []

collect-bit :
    (i id : ℕ) (b : Batch) (j : ℕ)
    → j < 8
    → bit j (collect i id b).egr_idx ≡ max (bit j b.egr_idx) (bit j (2 ^ i))
collect-bit i id b j h = bit-mod j (bit_or b.egr_idx (2 ^ i)) h ∙ bit-bit_or j b.egr_idx (2 ^ i)

pub collect-Marked : (i id : ℕ) (b : Batch) → Marked b → Marked (collect i id b)
collect-Marked i id b m j h e = elim (Bool-cases (j == i)) [
  | inl s ↦ absurd (
      omega (
        arith,
        collect-bit i id b j h,
        ==→eq j i s,
        ap (λ k. bit k (2 ^ i)) (==→eq j i s),
        bit-pow_self i,
      ))
  | inr s ↦ rw s (m j h (omega (arith, collect-bit i id b j h)))
]

-- The packets that wait in the arrays of the interfaces from `j` on.
unfoldable pub pending : (ℕ → List ℕ) → ℕ → ℕ → List ℕ
pending f j zero = []
pending f j (suc left) = f j ++ pending f (j + 1) left

pending_beyond :
    (f : ℕ → List ℕ) (i id j left : ℕ) → i < j → pending (add_to f i id) j left ≡ pending f j left
unfolding pending
pending_beyond f i id j zero h = refl
pending_beyond f i id j (suc left) h =
    rw other (ap (λ xs. f j ++ xs) (pending_beyond f i id (j + 1) left (omega arith)))
  where
    other : (j == i) ≡ false
    other = ground (arith, h)

-- A packet that is put in one of the arrays.
pub pending-add_to :
    (f : ℕ → List ℕ) (i id j left x : ℕ)
    → j ≤ i
    → i < j + left
    → count x (pending (add_to f i id) j left) ≡ count x (pending f j left) + count x (id ∷ [])
unfolding pending
pending-add_to f i id j zero x low high = absurd (omega arith)
pending-add_to f i id j (suc left) x low high = elim (Bool-cases (j == i)) [
  | inl e ↦ rw e (
      omega (
        arith,
        count-append x (f j ++ (id ∷ [])) (pending (add_to f i id) (j + 1) left),
        count-append x (f j) (id ∷ []),
        count-append x (f j) (pending f (j + 1) left),
        ap (count x) (pending_beyond f i id (j + 1) left (omega (arith, ==→eq j i e))),
      ))
  | inr e ↦ rw e (
      omega (
        arith,
        count-append x (f j) (pending (add_to f i id) (j + 1) left),
        count-append x (f j) (pending f (j + 1) left),
        pending-add_to f i id (j + 1) left x (ground (arith, e)) (omega arith),
      ))
]

pub pending_none : (j left : ℕ) → pending (λ i. []) j left ≡ []
unfolding pending
pending_none j zero = refl
pending_none j (suc left) = pending_none (j + 1) left
