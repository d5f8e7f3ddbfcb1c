-- ===== src/Txq/Ring.antt =====
-- `fec_enet_priv_tx_q`, with descriptors by their index. The card clears READY in a descriptor that
-- it has sent.
use trusted_gateway.Prelude.{
  ℕ, zero, suc, ◌+◌, ◌-◌, Bool, true, false, not, List, [], ◌∷◌, Option, none, some, Outcome, ok,
  panic, bad_argument, ◌>>=◌, if◌then◌else◌, ◌==◌, ◌!=◌, ltb, leb,
}

-- `struct bufdesc`: the bits of `cbd_sc` that the driver sets.
pub record Bufdesc : Type 0 where
  pub tx_ready : Bool
  pub tx_intr : Bool
  pub tx_last : Bool
  pub sc_wrap : Bool
  pub bufaddr : ℕ
  pub datlen : ℕ

-- The packets in the ring are in `tx_skbuff`, by their identity; `freed` are those that went back to
-- the pool. `stopped` is of the egress queue, and `wakes` counts the calls of `netif_tx_wake_queue` that
-- woke it.
pub record Txq : Type 0 where
  pub ring_size : ℕ
  pub cur : ℕ
  pub pending_tx : ℕ
  pub bd : ℕ → Bufdesc
  pub tx_skbuff : ℕ → Option ℕ
  pub tx_stop_threshold : ℕ
  pub tx_wake_threshold : ℕ
  pub stopped : Bool
  pub wakes : ℕ
  pub freed : List ℕ

-- A packet, as far as the driver looks at it. `addr` is the physical address of its data or of the
-- bounce buffer with a copy of them, 0 if there is none or the cache could not be cleaned.
pub record Skb : Type 0 where
  pub id : ℕ
  pub addr : ℕ
  pub headlen : ℕ
  pub nr_frags : ℕ

abbrev pub put {ℓ} : {A : Type ℓ} → (ℕ → A) → ℕ → A → ℕ → A
put f i a j = if i == j then a else f j

unfoldable pub fec_enet_get_nextdesc : Txq → ℕ → ℕ
fec_enet_get_nextdesc q i = if leb (q.ring_size - 1) i then 0 else i + 1

unfoldable pub fec_enet_get_free_txdesc_num : Txq → ℕ
fec_enet_get_free_txdesc_num q =
    if ltb q.cur q.pending_tx
    then q.pending_tx - q.cur - 1
    else q.pending_tx + q.ring_size - q.cur - 1

unfoldable pub fec_trigger_tx : Bufdesc → ℕ → ℕ → ℕ → ℕ → Txq → Txq
fec_trigger_tx b first next skb index q = record q {
  tx_skbuff = put q.tx_skbuff index (some skb);
  bd = put q.bd first b;
  cur = next;
}

abbrev pub free_skb : ℕ → Txq → Txq
free_skb id q = record q { freed = id ∷ q.freed }

-- NETDEV_TX_OK and NETDEV_TX_BUSY.
pub data Netdev : Type 0 where
  tx_ok tx_busy : Netdev

unfoldable pub fec_enet_txq_submit_skb : Skb → Txq → Outcome (Netdev × Txq)
unfolding fec_enet_get_free_txdesc_num fec_trigger_tx fec_enet_get_nextdesc
fec_enet_txq_submit_skb skb q =
    if ltb (fec_enet_get_free_txdesc_num q) 1
    then ok (tx_busy, q)
    else (if skb.addr == 0
        then ok (tx_ok, free_skb skb.id q)
        else (if skb.nr_frags != 0
            then panic bad_argument
            else ok (
              tx_ok,
              fec_trigger_tx
                  (record {
                    tx_ready = true;
                    tx_intr = true;
                    tx_last = true;
                    sc_wrap = q.cur == q.ring_size - 1;
                    bufaddr = skb.addr;
                    datlen = skb.headlen;
                  })
                  q.cur (fec_enet_get_nextdesc q q.cur) skb.id q.cur q,
            )))

-- The queue is stopped when the ring is nearly full.
abbrev pub throttled : Netdev × Txq → Netdev × Txq
throttled (tx_busy, q) = (tx_busy, q)
throttled (tx_ok, q) = (
  tx_ok,
  (if leb (fec_enet_get_free_txdesc_num q) q.tx_stop_threshold
      then record q { stopped = true }
      else q),
)

unfoldable pub fec_enet_start_xmit : Skb → Txq → Outcome (Netdev × Txq)
unfolding fec_enet_txq_submit_skb fec_enet_get_free_txdesc_num
fec_enet_start_xmit skb q = fec_enet_txq_submit_skb skb q >>= λ r. ok (throttled r)

-- `fec_xmit_handler`: how many packets of the burst the driver has taken. It stops at the first that
-- it does not take.
abbrev pub counted : Netdev → Txq → Outcome (ℕ × Txq) → Outcome (ℕ × Txq)
counted tx_ok q rest = rest >>= λ (n, q'). ok (suc n, q')
counted tx_busy q rest = ok (0, q)

unfoldable pub fec_xmit_handler : List Skb → Txq → Outcome (ℕ × Txq)
unfolding fec_enet_start_xmit
fec_xmit_handler [] q = ok (0, q)
fec_xmit_handler (skb ∷ skbs) q =
    fec_enet_start_xmit skb q >>= λ (r, q'). counted r q' (fec_xmit_handler skbs q')

-- A descriptor that the driver has emptied.
abbrev pub idle_bd : Txq → ℕ → Bufdesc
idle_bd q i = record (q.bd i) {
  tx_ready = false;
  tx_intr = false;
  tx_last = false;
  sc_wrap = i == q.ring_size - 1;
  bufaddr = 0;
}

abbrev pub free_done : Option ℕ → Txq → Txq
free_done none q = q
free_done (some id) q = free_skb id q

-- The queue is woken when the ring has room again.
unfoldable pub woken : Txq → Txq
unfolding fec_enet_get_free_txdesc_num
woken q =
    if q.stopped
    then (if leb q.tx_wake_threshold (fec_enet_get_free_txdesc_num q)
        then record q { stopped = false; wakes = q.wakes + 1 }
        else q)
    else q

-- The body of the loop of `fec_txq`, for a descriptor that the card has sent.
unfoldable pub complete_one : Txq → Txq
unfolding woken fec_enet_get_nextdesc
complete_one q =
    let i = q.pending_tx in
    let emptied = record q {
      bd = put q.bd i (idle_bd q i);
      tx_skbuff = put q.tx_skbuff i none;
      pending_tx = fec_enet_get_nextdesc q i;
    } in
    woken (free_done (q.tx_skbuff i) emptied)

-- `fec_txq`, at most `budget` descriptors; `busy` says which the card has not sent yet when the
-- driver looks, and `active` is whether `reg_desc_active` is then read as other than 0. The result
-- has the number of the descriptors, and whether the card is kicked again.
unfoldable pub fec_txq : (ℕ → Bool) → Bool → ℕ → ℕ → Txq → ℕ × (Bool × Txq)
unfolding complete_one
fec_txq busy active zero n q = (n, (false, q))
fec_txq busy active (suc budget) n q =
    let rest = fec_txq busy active budget (n + 1) (complete_one q) in
    if q.pending_tx == q.cur
    then (n, (false, q))
    else (if busy q.pending_tx then (n, (not active, q)) else rest)

-- `reset_tx_queue`: the descriptors from the first on.
unfoldable pub reset_from : ℕ → ℕ → Txq → Txq
reset_from zero i q = q
reset_from (suc left) i q =
    let emptied = record q { bd = put q.bd i (idle_bd q i); tx_skbuff = put q.tx_skbuff i none } in
    reset_from left (i + 1) (free_done (q.tx_skbuff i) emptied)

unfoldable pub reset_tx_queue : Txq → Txq
unfolding reset_from
reset_tx_queue q = reset_from q.ring_size 0 (record q { cur = 0; pending_tx = 0 })
