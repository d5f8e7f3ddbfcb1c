-- ===== src/Ethbuf/Bytes.antt =====
-- Cutting, prepending and linearizing keep the packet's bytes.
use trusted_gateway.Prelude.{
  ℕ, zero, suc, ◌+◌, ◌-◌, ◌%◌, ◌≤◌, ◌<◌, ◌≡◌, ◌⊎◌, inl, inr, refl, ap, sym, ◌∙◌, Bool, true, false,
  List, [], ◌∷◌, ◌++◌, append_assoc, append-nil, ok, Returns, Returns-map, Returns-bind, ◌==◌, ltb,
  arith, length, set, get_or, drop, length-set, get_or-set_self, get_or-set_ne, Bool-cases,
}
use mathlib.Core.Path.{ap₂}
use trusted_gateway.Ringbuf.Ops.{copy_to, copy_from}
use trusted_gateway.Ringbuf.Copies.{length-copy_to, copy_in_ok}
use trusted_gateway.Ethbuf.Data.{
  Ethbuf, payload, bstgw_ethbuf_precut, bstgw_ethbuf_prepend, total_len, chunk, copy_chain,
  bstgw_ethbuf_linearize,
}

pub record IsValid (eb : Ethbuf) : Type 0 where
  pub sized : length eb.buf ≡ eb.buf_cap
  pub inside : eb.data_off + eb.data_len ≤ eb.buf_cap
  pub in_u32 : eb.buf_cap < 0x100000000

copy_from-set_ne :
    (buf : List ℕ) (o n j x : ℕ) → o + n ≤ j → copy_from (set buf j x) o n ≡ copy_from buf o n
unfolding copy_from
copy_from-set_ne buf o zero j x h = refl
copy_from-set_ne buf o (suc n) j x h =
    ap₂ ◌∷◌ (get_or-set_ne buf x 0 (λ e. omega (arith, e)))
      (copy_from-set_ne buf (o + 1) n j x (omega arith))

-- What is copied behind a stretch does not change it.
pub copy_from-copy_to_before :
    (buf : List ℕ) (o n j : ℕ) (xs : List ℕ)
    → o + n ≤ j
    → copy_from (copy_to buf j xs) o n ≡ copy_from buf o n
unfolding copy_to
copy_from-copy_to_before buf o n j [] h = refl
copy_from-copy_to_before buf o n j (x ∷ xs) h =
    copy_from-copy_to_before (set buf j x) o n (j + 1) xs (omega arith)
    ∙ copy_from-set_ne buf o n j x h

get_or-copy_to :
    (buf : List ℕ) (i j : ℕ) (xs : List ℕ) → i < j → get_or (copy_to buf j xs) i 0 ≡ get_or buf i 0
unfolding copy_to
get_or-copy_to buf i j [] h = refl
get_or-copy_to buf i j (x ∷ xs) h =
    get_or-copy_to (set buf j x) i (j + 1) xs (omega arith)
    ∙ get_or-set_ne buf x 0 (λ e. omega (arith, e))

-- What is copied can be read back.
pub copy_from-copy_to :
    (buf : List ℕ) (j : ℕ) (xs : List ℕ)
    → j + length xs ≤ length buf
    → copy_from (copy_to buf j xs) j (length xs) ≡ xs
unfolding copy_to copy_from
copy_from-copy_to buf j [] h = refl
copy_from-copy_to buf j (x ∷ xs) h =
    ap₂ ◌∷◌
      (get_or-copy_to (set buf j x) j (j + 1) xs (omega arith)
        ∙ get_or-set_self buf j x 0 (omega arith))
      (copy_from-copy_to (set buf j x) (j + 1) xs (omega (arith, length-set buf j x)))

pub copy_from_append :
    (buf : List ℕ) (o m n : ℕ)
    → copy_from buf o (m + n) ≡ copy_from buf o m ++ copy_from buf (o + m) n
unfolding copy_from
copy_from_append buf o zero n = ap₂ (copy_from buf) {x = o} (omega arith) (omega arith)
copy_from_append buf o (suc m) n =
    ap (copy_from buf o) {x = suc m + n} {y = suc (m + n)} (omega arith)
    ∙ ap (λ xs. get_or buf o 0 ∷ xs)
        (copy_from_append buf (o + 1) m n
          ∙ ap (λ j. copy_from buf (o + 1) m ++ copy_from buf j n) {x = o + 1 + m} (omega arith))

pub length-copy_from : (buf : List ℕ) (o n : ℕ) → length (copy_from buf o n) ≡ n
unfolding copy_from
length-copy_from buf o zero = refl
length-copy_from buf o (suc n) = ap suc (length-copy_from buf (o + 1) n)

-- The packet that a chain holds.
abbrev pub chained : List Ethbuf → List ℕ
chained [] = []
chained (eb ∷ ebs) = payload eb ++ chained ebs

-- The length of the packet that a chain holds.
abbrev pub chain_len : List Ethbuf → ℕ
chain_len [] = 0
chain_len (eb ∷ ebs) = eb.data_len + chain_len ebs

abbrev pub AllValid : List Ethbuf → Type 0
AllValid [] = Unit
AllValid (eb ∷ ebs) = IsValid eb × AllValid ebs

total_len_lem : (ebs : List Ethbuf) → total_len ebs ≡ chain_len ebs % 0x100000000
unfolding total_len
total_len_lem [] = refl
total_len_lem (eb ∷ ebs) = omega (arith, total_len_lem ebs)

chunk-payload : (eb : Ethbuf) → IsValid eb → chunk eb ≡ ok (payload eb)
chunk-payload eb v = elim (Bool-cases (eb.data_len == 0)) [
  | inl e ↦
      let none_there : eb.data_len ≡ 0 = ground (arith, e) in
      unfold chunk copy_from in rw e (rw none_there refl)
  | inr e ↦
      let in_array : ltb eb.data_off eb.buf_cap ≡ true = ground (arith, v.inside, e) in
      unfold chunk in rw (e, in_array) refl
]

-- Copying a chain behind offset `b`, where there is room for it, returns, and puts the chain's bytes
-- there, in order, behind what was there before.
copy_chain_lem :
    (ebs : List Ethbuf) (b o : ℕ) (buf : List ℕ)
    → AllValid ebs
    → b + chain_len ebs ≤ length buf
    → o ≤ b
    → Returns
        (λ buf'.
          (length buf' ≡ length buf)
          × (copy_from buf' o (b - o + chain_len ebs) ≡ copy_from buf o (b - o) ++ chained ebs))
        (copy_chain ebs b buf)
unfolding copy_chain
copy_chain_lem [] b o buf vs h l = (
  refl,
  ap (copy_from buf o) {x = b - o + 0} (omega arith) ∙ sym (append-nil (copy_from buf o (b - o))),
)
copy_chain_lem (eb ∷ ebs) b o buf (v, vs) h l =
    rw
      (
        chunk-payload eb v,
        copy_in_ok buf b (payload eb) (omega (arith, length-copy_from eb.buf eb.data_off n)),
      )
      (Returns-map (copy_chain ebs (b + n) buf1)
        (λ buf' r. (
          r.0 ∙ length-copy_to buf b (payload eb),
          ap (copy_from buf' o) {y = b + n - o + chain_len ebs} (omega arith)
              ∙ r.1
              ∙ ap (λ xs. xs ++ chained ebs) front
              ∙ append_assoc (copy_from buf o (b - o)) (payload eb) (chained ebs),
        ))
        (copy_chain_lem ebs (b + n) o buf1 vs (omega (arith, length-copy_to buf b (payload eb)))
          (omega arith)))
  where
    n : ℕ
    n = eb.data_len

    buf1 : List ℕ
    buf1 = copy_to buf b (payload eb)

    back : copy_from buf1 b n ≡ payload eb
    back =
        ap (copy_from buf1 b) (sym (length-copy_from eb.buf eb.data_off n))
        ∙ copy_from-copy_to buf b (payload eb)
            (omega (arith, length-copy_from eb.buf eb.data_off n))

    front : copy_from buf1 o (b + n - o) ≡ copy_from buf o (b - o) ++ payload eb
    front =
        ap (copy_from buf1 o) {y = b - o + n} (omega arith)
        ∙ copy_from_append buf1 o (b - o) n
        ∙ ap₂ ◌++◌ (copy_from-copy_to_before buf o (b - o) b (payload eb) (omega arith))
            (ap (λ j. copy_from buf1 j n) {x = o + (b - o)} (omega arith) ∙ back)

-- What linearizing ends in.
abbrev pub Linearized : Ethbuf → List Ethbuf → Bool × (Ethbuf × List Ethbuf) → Type 0
Linearized eb ebs (true, (eb', ebs')) =
    (payload eb' ≡ payload eb ++ chained ebs) × (ebs' ≡ []) × IsValid eb'
Linearized eb ebs (false, (eb', ebs')) = (eb' ≡ eb) × (ebs' ≡ ebs)

-- Linearizing a chain of valid buffers, whose head has data and the rest of which is shorter than
-- 2^32 bytes, returns. If the head has room for the rest, it has the bytes of the whole chain, in
-- order, and no rest; otherwise nothing is changed.
pub bstgw_ethbuf_linearize-Linearized :
    (eb : Ethbuf) (ebs : List Ethbuf)
    → IsValid eb
    → 0 < eb.data_len
    → AllValid ebs
    → chain_len ebs < 0x100000000
    → Returns (Linearized eb ebs) (bstgw_ethbuf_linearize eb ebs)
unfolding bstgw_ethbuf_linearize
bstgw_ethbuf_linearize-Linearized eb [] v h vs few = (sym (append-nil (payload eb)), refl, v)
bstgw_ethbuf_linearize-Linearized eb (next ∷ ebs) v h vs few =
    elim (Bool-cases (ltb tail_space rest_len)) [
      | inl e ↦ rw e (refl, refl)
      | inr e ↦ rw e (
          rw (some_data, last_in)
            (Returns-bind (Linearized eb (next ∷ ebs))
              (copy_chain (next ∷ ebs) (eb.data_off + eb.data_len) eb.buf) _
              (copy_chain_lem (next ∷ ebs) (eb.data_off + eb.data_len) eb.data_off eb.buf vs
                (room e) (omega arith))
              (λ buf' r. (
                ap (copy_from buf' eb.data_off)
                      {y = eb.data_off + eb.data_len - eb.data_off + chain_len (next ∷ ebs)}
                      (omega (arith, all_of, room e, v.inside, v.in_u32, v.sized))
                    ∙ r.1
                    ∙ ap (λ n. copy_from eb.buf eb.data_off n ++ chained (next ∷ ebs))
                        (omega arith),
                refl,
                record {
                  sized = r.0 ∙ v.sized;
                  inside = omega (arith, all_of, room e, v.sized);
                  in_u32 = v.in_u32;
                },
              ))))
    ]
  where
    rest_len : ℕ
    rest_len = total_len (next ∷ ebs)

    all_of : rest_len ≡ chain_len (next ∷ ebs)
    all_of = omega (arith, total_len_lem (next ∷ ebs), few)

    tail_space : ℕ
    tail_space = (0x100000000 + eb.buf_cap - (eb.data_off + eb.data_len)) % 0x100000000

    some_data : (eb.data_len == 0) ≡ false
    some_data = ground arith

    last_in : ltb (eb.data_off + (eb.data_len - 1)) eb.buf_cap ≡ true
    last_in = ground (arith, v.inside, h)

    room :
        ltb tail_space rest_len ≡ false
        → eb.data_off + eb.data_len + chain_len (next ∷ ebs) ≤ length eb.buf
    room e = ground (arith, all_of, v.sized, v.inside, v.in_u32)

drop-copy_from :
    (buf : List ℕ) (o m n : ℕ) → m ≤ n → copy_from buf (o + m) (n - m) ≡ drop m (copy_from buf o n)
unfolding copy_from
drop-copy_from buf o zero n h = ap₂ (copy_from buf) {x = o + 0} (omega arith) (omega arith)
drop-copy_from buf o (suc m) zero h = absurd (omega arith)
drop-copy_from buf o (suc m) (suc n) h =
    ap₂ (copy_from buf) {x = o + suc m} {y = o + 1 + m} (omega arith) (omega arith)
    ∙ drop-copy_from buf (o + 1) m n (omega arith)

-- Cutting at most all the bytes off the front drops them, and prepending as many again gives the
-- buffer back; cutting more changes nothing.
pub prepend-precut :
    (eb : Ethbuf) (len : ℕ)
    → let (fine, eb') = bstgw_ethbuf_precut eb len in
      ((fine ≡ true)
        × (len ≤ eb.data_len)
        × (payload eb' ≡ drop len (payload eb))
        × (bstgw_ethbuf_prepend eb' len ≡ (true, eb)))
      ⊎ ((fine ≡ false) × (eb.data_len < len) × (eb' ≡ eb))
unfolding bstgw_ethbuf_precut bstgw_ethbuf_prepend
prepend-precut eb len = elim (Bool-cases (ltb eb.data_len len)) [
  | inl e ↦ rw e (inr (refl, ground (arith, e), refl))
  | inr e ↦
      let few : len ≤ eb.data_len = ground (arith, e) in
      rw e (
        inl (refl, few, drop-copy_from eb.buf eb.data_off len eb.data_len few, ground (arith, few)))
]
