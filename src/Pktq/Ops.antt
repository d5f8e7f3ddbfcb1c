-- ===== src/Pktq/Ops.antt =====
-- `pktqueue_t` and the functions on it. A buffer is named by a number. The lock is left out: every
-- function runs under it.
use trusted_gateway.Prelude.{
  ℕ, ◌+◌, ◌-◌, ◌%◌, Bool, true, false, List, [], ◌∷◌, Outcome, ok, panic, bad_argument,
  if◌then◌else◌, ◌==◌, ltb, leb, set, length, take,
}

pub record Pktq : Type 0 where
  pub stopped : Bool
  pub next_read : ℕ
  pub next_write : ℕ
  pub count : ℕ
  pub capacity : ℕ
  pub pkt : List ℕ

unfoldable pub is_full : Pktq → Bool
is_full q = leb q.capacity q.count

unfoldable pub is_empty : Pktq → Bool
is_empty q = q.count == 0

-- The store of one buffer and the move of `next_write`, in which the count is not yet touched.
abbrev pub store : Pktq → ℕ → Pktq
store q b = record q {
  pkt = set q.pkt q.next_write b;
  next_write = (q.next_write + 1) % q.capacity;
}

-- The loop of `bstgw_pktq_locked_bulk_add_buff` over the buffers that are added.
unfoldable pub store_all : Pktq → List ℕ → Pktq
store_all q [] = q
store_all q (b ∷ bs) = store_all (store q b) bs

abbrev pub will_add : Pktq → List ℕ → ℕ
will_add q bs = if leb (length bs) (q.capacity - q.count) then length bs else q.capacity - q.count

-- `bstgw_pktq_locked_bulk_add_buff`: how many of the buffers were added.
unfoldable pub bulk_add_buff : Pktq → List ℕ → ℕ × Pktq
unfolding store_all
bulk_add_buff q bs =
    let q' = store_all q (take (will_add q bs) bs) in
    (will_add q bs, record q' { count = q'.count + will_add q bs })

-- `bstgw_pktq_locked_add_buf`
unfoldable pub add_buf : Pktq → ℕ → Bool × Pktq
unfolding is_full
add_buf q b = if is_full q then (false, q) else (true, record (store q b) { count = q.count + 1 })

-- `bstgw_pktq_locked_drop_bufs`, with its assertion.
unfoldable pub drop_bufs : Pktq → ℕ → Outcome Pktq
drop_bufs q num =
    if ltb q.count num
    then panic bad_argument
    else ok (record q { next_read = (q.next_read + num) % q.capacity; count = q.count - num })

-- `bstgw_pktq_locked_contig_bufs`
unfoldable pub contig_bufs : Pktq → ℕ
unfolding is_empty
contig_bufs q =
    let till_end = 1 + ((q.capacity - 1) - q.next_read) in
    if is_empty q then 0 else (if ltb q.count till_end then q.count else till_end)

unfoldable pub netif_tx_start_queue : Pktq → Pktq
netif_tx_start_queue q = record q { stopped = false }

unfoldable pub netif_tx_stop_queue : Pktq → Pktq
netif_tx_stop_queue q = record q { stopped = true }

-- `netif_tx_wake_queue`: whether the interface's notify handler is called.
unfoldable pub netif_tx_wake_queue : Pktq → Bool × Pktq
netif_tx_wake_queue q = (q.stopped, record q { stopped = false })
