-- ===== src/Pktq/Refine.antt =====
-- A valid queue is the bounded FIFO of its contents.
use trusted_gateway.Prelude.{
  ℕ, suc, ◌+◌, ◌-◌, ◌%◌, ◌≤◌, ◌<◌, ◌≡◌, refl, ap, sym, subst, ◌∙◌, Bool, true, false, List, [], ◌∷◌,
  ◌++◌, append-nil, append_assoc, min, Returns, arith, length, set, get_or, length-set, take, drop,
  length-take, get_or-set_self, inl, inr, ltb, Bool-cases,
}
use native.Mathlib.Nat.{mod-add-mod}
use mathlib.Core.Path.{ap₂}
use trusted_gateway.Pktq.Ops.{
  Pktq, store, store_all, will_add, bulk_add_buff, add_buf, drop_bufs, is_full,
}
use trusted_gateway.Pktq.Contents.{
  items, contents, IsValid, items-set_ne, items_snoc, items_shift, drop-items,
}

-- A queue in the middle of a bulk addition: `k` stored buffers are not yet counted.
abbrev pub filled : Pktq → ℕ → List ℕ
filled q k = items q.pkt q.capacity q.next_read 0 (q.count + k)

pub record Filling (q : Pktq) (k : ℕ) : Type 0 where
  pub slots : length q.pkt ≡ q.capacity
  pub read_in : q.next_read < q.capacity
  pub bounded : q.count + k ≤ q.capacity
  pub write_at : q.next_write ≡ (q.next_read + (q.count + k)) % q.capacity

store-filled :
    (q : Pktq) (k b : ℕ)
    → Filling q k
    → q.count + k < q.capacity
    → filled (store q b) (suc k) ≡ filled q k ++ (b ∷ [])
store-filled q k b v room =
    ap (items pkt' cap r 0) {y = suc (q.count + k)} (omega arith)
    ∙ items_snoc pkt' cap r 0 n
    ∙ ap₂ (λ xs x. xs ++ (x ∷ [])) rest here
  where
    open q use {pkt, capacity as cap, next_read as r}

    n : ℕ
    n = q.count + k

    pkt' : List ℕ
    pkt' = set pkt q.next_write b

    rest : items pkt' cap r 0 n ≡ items pkt cap r 0 n
    rest =
        subst (λ w. items (set pkt w b) cap r 0 n ≡ items pkt cap r 0 n) (sym v.write_at)
          (items-set_ne pkt cap r 0 n n b v.read_in (omega arith) room)

    here : get_or pkt' ((r + (0 + n)) % cap) 0 ≡ b
    here =
        subst (λ w. get_or (set pkt w b) ((r + (0 + n)) % cap) 0 ≡ b) (sym v.write_at)
          (subst (λ j. get_or (set pkt ((r + n) % cap) b) ((r + j) % cap) 0 ≡ b) (omega arith)
            (get_or-set_self pkt ((r + n) % cap) b 0 (omega (arith, v.slots))))

store-Filling :
    (q : Pktq) (k b : ℕ) → Filling q k → q.count + k < q.capacity → Filling (store q b) (suc k)
store-Filling q k b v room = record {
  slots = length-set q.pkt q.next_write b ∙ v.slots;
  read_in = v.read_in;
  bounded = omega arith;
  write_at = ap (λ w. (w + 1) % q.capacity) v.write_at ∙ step;
}
  where
    step :
        ((q.next_read + (q.count + k)) % q.capacity + 1) % q.capacity
        ≡ (q.next_read + (q.count + suc k)) % q.capacity
    step = rw mod-add-mod (ap (λ j. j % q.capacity) (omega arith))

-- What storing `bs` makes of a queue with `k` buffers uncounted.
abbrev pub Stored : Pktq → ℕ → ℕ → List ℕ → Pktq → Type 0
Stored q k m bs q' =
    (filled q' m ≡ filled q k ++ bs)
    × Filling q' m
    × (q'.count ≡ q.count)
    × (q'.capacity ≡ q.capacity)
    × (q'.next_read ≡ q.next_read)

pub store_all-Stored :
    (q : Pktq) (k m : ℕ) (bs : List ℕ)
    → m ≡ k + length bs
    → Filling q k
    → q.count + m ≤ q.capacity
    → Stored q k m bs (store_all q bs)
unfolding store_all
store_all-Stored q k m [] e v h =
    subst (λ j. Stored q k j [] q) {x = k} (omega arith)
      (sym (append-nil (filled q k)), v, refl, refl, refl)
store_all-Stored q k m (b ∷ bs) e v h =
    let room : q.count + k < q.capacity = omega arith in
    let (f, w, c, cap, r) =
      store_all-Stored (store q b) (suc k) m bs (omega arith) (store-Filling q k b v room) h in
    (
      f ∙ ap (λ xs. xs ++ bs) (store-filled q k b v room) ∙ append_assoc (filled q k) (b ∷ []) bs,
      w,
      c,
      cap,
      r,
    )

IsValid-Filling : (q : Pktq) → IsValid q → Filling q 0
IsValid-Filling q v = record {
  slots = v.slots;
  read_in = v.read_in;
  bounded = omega (arith, v.bounded);
  write_at = v.write_at ∙ ap (λ j. (q.next_read + j) % q.capacity) {y = q.count + 0} (omega arith);
}

will_add_lem : (q : Pktq) (bs : List ℕ) → will_add q bs ≡ min (length bs) (q.capacity - q.count)
will_add_lem q bs = ground arith

pub filled_zero : (q : Pktq) → filled q 0 ≡ contents q
filled_zero q = ap (items q.pkt q.capacity q.next_read 0) {x = q.count + 0} (omega arith)

-- A bulk addition to a valid queue adds as many of the buffers as fit, from the front, behind those
-- that are there, answers their number, and keeps the queue valid.
pub bulk_add_buff_lem :
    (q : Pktq) (bs : List ℕ)
    → IsValid q
    → let (n, q') = bulk_add_buff q bs in
      (n ≡ min (length bs) (q.capacity - q.count))
      × (contents q' ≡ contents q ++ take n bs)
      × IsValid q'
unfolding bulk_add_buff
bulk_add_buff_lem q bs v =
    let n = will_add q bs in
    let (f, w, c, cap, r) =
      store_all-Stored q 0 n (take n bs) (omega (arith, length-take n bs, will_add_lem q bs))
        (IsValid-Filling q v) (omega (arith, v.bounded, will_add_lem q bs)) in
    (
      will_add_lem q bs,
      f ∙ ap (λ xs. xs ++ take n bs) (filled_zero q),
      record {
        slots = w.slots;
        some_slots = omega (arith, v.some_slots);
        read_in = w.read_in;
        bounded = w.bounded;
        write_at = w.write_at;
      },
    )

-- One addition: to a full queue nothing is added, to another the buffer, at the end.
abbrev pub Added : Pktq → ℕ → Bool × Pktq → Type 0
Added q b (false, q') = (q.count ≡ q.capacity) × (q' ≡ q)
Added q b (true, q') = (q.count < q.capacity) × (contents q' ≡ contents q ++ (b ∷ [])) × IsValid q'

add_room :
    (q : Pktq) (b : ℕ)
    → q.count < q.capacity
    → IsValid q
    → Added q b (true, record (store q b) { count = q.count + 1 })
add_room q b room v =
    let w = store-Filling q 0 b (IsValid-Filling q v) (omega arith) in
    (
      room,
      store-filled q 0 b (IsValid-Filling q v) (omega arith)
          ∙ ap (λ xs. xs ++ (b ∷ [])) (filled_zero q),
      record {
        slots = w.slots;
        some_slots = v.some_slots;
        read_in = w.read_in;
        bounded = w.bounded;
        write_at = w.write_at;
      },
    )

-- `bstgw_pktq_locked_add_buf` on a valid queue.
pub add_buf-Added : (q : Pktq) (b : ℕ) → IsValid q → Added q b (add_buf q b)
unfolding add_buf is_full
add_buf-Added q b v = ground (arith, add_room q b)

-- Dropping at most as many buffers as there are returns, and drops the oldest.
pub drop_bufs_lem :
    (q : Pktq) (num : ℕ)
    → num ≤ q.count
    → IsValid q
    → Returns (λ q'. (contents q' ≡ drop num (contents q)) × IsValid q') (drop_bufs q num)
unfolding drop_bufs
drop_bufs_lem q num h v = elim (Bool-cases (ltb q.count num)) [
  | inl e ↦ absurd (ground arith)
  | inr e ↦ rw e (
    sym (dropped ∙ items_shift pkt cap r num 0 (q.count - num)),
    record {
      slots = v.slots;
      some_slots = v.some_slots;
      read_in = omega (arith, v.some_slots);
      bounded = omega (arith, v.bounded);
      write_at = v.write_at ∙ behind;
    },
  )
]
  where
    open q use {pkt, capacity as cap, next_read as r}

    dropped : drop num (contents q) ≡ items pkt cap r (num + 0) (q.count - num)
    dropped = drop-items pkt cap r 0 num q.count h

    behind : (r + q.count) % cap ≡ ((r + num) % cap + (q.count - num)) % cap
    behind = rw mod-add-mod (ap (λ j. j % cap) (omega arith))
