-- ===== src/Ringbuf/Copies.antt =====
-- The copies of a put are the stores of its bytes one by one, and those of a get read the bytes in
-- their order.
use trusted_gateway.Prelude.{
  ok, ℕ, zero, suc, ◌+◌, ◌-◌, ◌%◌, ◌≤◌, ◌<◌, ◌≡◌, refl, ap, sym, ◌∙◌, List, [], ◌∷◌, ◌++◌, arith,
  length, take, drop, get_or, set, length-set,
}
use native.Mathlib.Nat.{mod-eq_of_lt}
use mathlib.Core.Path.{ap₂}
use trusted_gateway.Pktq.Ops.{Pktq, store, store_all}
use trusted_gateway.Pktq.Contents.{items}
use trusted_gateway.Ringbuf.Ops.{copy_to, copy_from, copy_in}

pub length-copy_to : (buf : List ℕ) (o : ℕ) (xs : List ℕ) → length (copy_to buf o xs) ≡ length buf
unfolding copy_to
length-copy_to buf o [] = refl
length-copy_to buf o (x ∷ xs) = length-copy_to (set buf o x) (o + 1) xs ∙ length-set buf o x

-- Stores without a wrap-around, but for one behind the last.
pub store_all-copy_to :
    (q : Pktq) (xs : List ℕ)
    → q.next_write < q.capacity
    → q.next_write + length xs ≤ q.capacity
    → store_all q xs ≡ record q {
      pkt = copy_to q.pkt q.next_write xs;
      next_write = (q.next_write + length xs) % q.capacity;
    }
unfolding store_all copy_to
store_all-copy_to q [] h l =
    ap (λ w. record q { next_write = w })
      (sym (mod-eq_of_lt h) ∙ ap (λ j. j % q.capacity) {y = q.next_write + 0} (omega arith))
store_all-copy_to q (x ∷ []) h l = refl
store_all-copy_to q (x ∷ y ∷ xs) h l =
    ap (λ w. store_all (record q { pkt = set q.pkt q.next_write x; next_write = w }) (y ∷ xs))
      (mod-eq_of_lt (omega arith))
    ∙ store_all-copy_to q' (y ∷ xs) (omega arith) (omega arith)
    ∙ ap
        (λ j. record q' {
          pkt = copy_to q'.pkt q'.next_write (y ∷ xs);
          next_write = j % q.capacity;
        })
        {x = q.next_write + 1 + length (y ∷ xs)} (omega arith)
  where
    q' : Pktq
    q' = record q { pkt = set q.pkt q.next_write x; next_write = q.next_write + 1 }

pub store_all_append :
    (q : Pktq) (xs ys : List ℕ) → store_all q (xs ++ ys) ≡ store_all (store_all q xs) ys
unfolding store_all
store_all_append q [] ys = refl
store_all_append q (x ∷ xs) ys = store_all_append (store q x) xs ys

pub copy_from-items :
    (buf : List ℕ) (cap r k n : ℕ) → r + k + n ≤ cap → copy_from buf (r + k) n ≡ items buf cap r k n
unfolding copy_from
copy_from-items buf cap r k zero h = refl
copy_from-items buf cap r k (suc n) h =
    ap₂ (λ j xs. get_or buf j 0 ∷ xs) (sym (mod-eq_of_lt (omega arith)))
      (ap (λ j. copy_from buf j n) {y = r + suc k} (omega arith)
        ∙ copy_from-items buf cap r (suc k) n (omega arith))

pub take_nil : (n : ℕ) → take {A = ℕ} n [] ≡ []
take_nil zero = refl
take_nil (suc n) = refl

pub take_split : (m n : ℕ) (xs : List ℕ) → m ≤ n → take n xs ≡ take m xs ++ take (n - m) (drop m xs)
take_split zero n xs h = ap (λ j. take j xs) (omega arith)
take_split (suc m) zero xs h = absurd (omega arith)
take_split (suc m) (suc n) [] h = sym (take_nil (suc n - suc m))
take_split (suc m) (suc n) (x ∷ xs) h =
    ap (λ ys. x ∷ ys)
      (take_split m n xs (omega arith)
        ∙ ap (λ j. take m xs ++ take j (drop m xs)) {x = n - m} (omega arith))

pub copy_in_ok :
    (buf : List ℕ) (o : ℕ) (xs : List ℕ)
    → o + length xs ≤ length buf
    → copy_in buf o xs ≡ ok (copy_to buf o xs)
unfolding copy_in
copy_in_ok buf o xs h = ground arith
