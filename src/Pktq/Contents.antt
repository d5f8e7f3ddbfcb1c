-- ===== src/Pktq/Contents.antt =====
-- The buffers that a queue holds, oldest first, and its invariant.
use trusted_gateway.Prelude.{
  ℕ, zero, suc, ◌+◌, ◌-◌, ◌%◌, ◌≤◌, ◌<◌, ◌≡◌, ◌≢◌, refl, ap, sym, ◌∙◌, List, [], ◌∷◌, ◌++◌, arith,
  length, set, get_or, drop, get_or-set_ne,
}
use native.Mathlib.Nat.{mod-eq_of_lt, mod-eq-sub-mod, mod-add-mod}
use native.Mathlib.Decide.{dec_lt}
use mathlib.Core.Path.{ap₂}
use trusted_gateway.Pktq.Ops.{Pktq}

-- The `n` buffers from the `k`-th behind slot `r` on.
module _ (pkt : List ℕ) (cap r : ℕ) where
  abbrev pub items : ℕ → ℕ → List ℕ
  items k zero = []
  items k (suc n) = get_or pkt ((r + k) % cap) 0 ∷ items (suc k) n

  pub length-items : (k n : ℕ) → length (items k n) ≡ n
  length-items k zero = refl
  length-items k (suc n) = ap suc (length-items (suc k) n)

abbrev pub contents : Pktq → List ℕ
contents q = items q.pkt q.capacity q.next_read 0 q.count

pub record IsValid (q : Pktq) : Type 0 where
  pub slots : length q.pkt ≡ q.capacity
  pub some_slots : 0 < q.capacity
  pub read_in : q.next_read < q.capacity
  pub bounded : q.count ≤ q.capacity
  pub write_at : q.next_write ≡ (q.next_read + q.count) % q.capacity

-- Two offsets below the capacity name different slots.
pub slot_ne : (cap r k n : ℕ) → r < cap → k < n → n < cap → (r + k) % cap ≢ (r + n) % cap
slot_ne cap r k n hr hk hn = elim (dec_lt (r + n) cap) [
  | yes p ↦ omega (arith, mod-eq_of_lt p, mod-eq_of_lt {n = r + k} {m = cap} (omega arith))
  | no p ↦ elim (dec_lt (r + k) cap) [
    | yes l ↦ omega (
      arith,
      mod-eq_of_lt l,
      mod-eq-sub-mod {n = r + n} {m = cap} (omega arith),
      mod-eq_of_lt {n = r + n - cap} {m = cap} (omega arith),
    )
    | no g ↦ omega (
      arith,
      mod-eq-sub-mod {n = r + n} {m = cap} (omega arith),
      mod-eq_of_lt {n = r + n - cap} {m = cap} (omega arith),
      mod-eq-sub-mod {n = r + k} {m = cap} (omega arith),
      mod-eq_of_lt {n = r + k - cap} {m = cap} (omega arith),
    )
  ]
]

-- A store in the slot behind the last item leaves the items before it.
pub items-set_ne :
    (pkt : List ℕ) (cap r k n m b : ℕ)
    → r < cap
    → k + n ≤ m
    → m < cap
    → items (set pkt ((r + m) % cap) b) cap r k n ≡ items pkt cap r k n
items-set_ne pkt cap r k zero m b hr h hm = refl
items-set_ne pkt cap r k (suc n) m b hr h hm =
    ap₂ ◌∷◌ (get_or-set_ne pkt b 0 (λ e. slot_ne cap r k m hr (omega arith) hm (sym e)))
      (items-set_ne pkt cap r (suc k) n m b hr (omega arith) hm)

-- One item more at the end.
pub items_snoc :
    (pkt : List ℕ) (cap r k n : ℕ)
    → items pkt cap r k (suc n) ≡ items pkt cap r k n ++ (get_or pkt ((r + (k + n)) % cap) 0 ∷ [])
items_snoc pkt cap r k zero = ap (λ j. get_or pkt ((r + j) % cap) 0 ∷ []) (omega arith)
items_snoc pkt cap r k (suc n) =
    ap (λ xs. get_or pkt ((r + k) % cap) 0 ∷ xs)
      (items_snoc pkt cap r (suc k) n
        ∙ ap (λ j. items pkt cap r (suc k) n ++ (get_or pkt ((r + j) % cap) 0 ∷ [])) (omega arith))

-- The items up to an offset, and those from there on.
pub items_append :
    (buf : List ℕ) (cap r k m n : ℕ)
    → items buf cap r k (m + n) ≡ items buf cap r k m ++ items buf cap r (m + k) n
items_append buf cap r k zero n =
    ap (items buf cap r k) {x = 0 + n} {y = n} (omega arith)
    ∙ ap (λ j. items buf cap r j n) {y = 0 + k} (omega arith)
items_append buf cap r k (suc m) n =
    ap (items buf cap r k) {x = suc m + n} {y = suc (m + n)} (omega arith)
    ∙ ap (λ xs. get_or buf ((r + k) % cap) 0 ∷ xs)
        (items_append buf cap r (suc k) m n
          ∙ ap (λ j. items buf cap r (suc k) m ++ items buf cap r j n) {x = m + suc k}
              (omega arith))

-- Items from offset `m` on are the items of the queue that starts `m` slots later.
pub items_shift :
    (pkt : List ℕ) (cap r m k n : ℕ) → items pkt cap r (m + k) n ≡ items pkt cap ((r + m) % cap) k n
items_shift pkt cap r m k zero = refl
items_shift pkt cap r m k (suc n) =
    ap₂ (λ j xs. get_or pkt j 0 ∷ xs) slot
      (ap (λ j. items pkt cap r j n) (omega arith) ∙ items_shift pkt cap r m (suc k) n)
  where
    slot : (r + (m + k)) % cap ≡ ((r + m) % cap + k) % cap
    slot = rw mod-add-mod (ap (λ j. j % cap) (omega arith))

-- The first items dropped.
pub drop-items :
    (pkt : List ℕ) (cap r k m n : ℕ)
    → m ≤ n
    → drop m (items pkt cap r k n) ≡ items pkt cap r (m + k) (n - m)
drop-items pkt cap r k zero n h = ap₂ (items pkt cap r) (omega arith) (omega arith)
drop-items pkt cap r k (suc m) zero h = absurd (omega arith)
drop-items pkt cap r k (suc m) (suc n) h =
    drop-items pkt cap r (suc k) m n (omega arith)
    ∙ ap₂ (items pkt cap r) (omega arith) (omega arith)
