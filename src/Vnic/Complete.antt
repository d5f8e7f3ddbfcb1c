-- ===== src/Vnic/Complete.antt =====
-- The end of a polling of the virtual card that finds nothing to do.
use trusted_gateway.Prelude.{
  ℕ, ◌<◌, ◌≡◌, ◌⊎◌, inl, inr, refl, sym, ◌∙◌, true, false, not, arith, ◌==◌, ◌&&◌, Bool-cases,
}
use trusted_gateway.Vqueue.State.{Ring, Vqueue}
use trusted_gateway.Vqueue.Used.{vqueue_num_of_avail_buf_and_notify}
use trusted_gateway.Napi.Ops.{Napi, napi_schedule, napi_complete_done}
use trusted_gateway.Vnic.Receive.{Received}
use trusted_gateway.Vnic.Poll.{Card, PollRound, is_no_avail, look_at_rx, last_looks, complete}

-- The normal world is asked to notify, and at the last look it had no buffer in the ring.
abbrev pub Asks : Ring → Vqueue → Type 0
Asks ring vq = (ring.used_no_notify ≡ false) × (ring.avail_idx ≡ vq.last_avail_idx)

looked :
    (ring : Ring) (later : ℕ) (vq : Vqueue)
    → later < 0x10000
    → vq.last_avail_idx < 0x10000
    → let (n, ring') = vqueue_num_of_avail_buf_and_notify ring later vq in
      (n == 0) ≡ true → Asks ring' vq
unfolding vqueue_num_of_avail_buf_and_notify
looked ring later vq p q = ground arith

schedule_sched : (n : Napi) → n.disable ≡ false → (napi_schedule n).sched ≡ true
unfolding napi_schedule
schedule_sched n e = ground (arith, e)

schedule_disable : (n : Napi) → (napi_schedule n).disable ≡ n.disable
unfolding napi_schedule
schedule_disable n = ground arith

-- The end of a polling, while the NAPI is the worker's: it is scheduled again, or the normal world is
-- asked to notify of packets, and of buffers if the last transmission found none.
abbrev pub Waits : Received → Card → Type 0
Waits ret v =
    (v.napi.sched ≡ true)
    ⊎ (Asks v.tx_ring v.tx_vq × ((is_no_avail ret ≡ false) ⊎ Asks v.rx_ring v.rx_vq))

look_at_rx-Waits :
    (r : PollRound) (ret : Received) (v : Card)
    → r.rx_later < 0x10000
    → v.rx_vq.last_avail_idx < 0x10000
    → Asks v.tx_ring v.tx_vq
    → (look_at_rx r ret v).napi.disable ≡ false
    → Waits ret (look_at_rx r ret v)
unfolding look_at_rx
look_at_rx-Waits r ret v p q asks on = elim (Bool-cases (is_no_avail ret)) [
  | inr e ↦ rw e (inr (asks, inl refl))
  | inl e ↦
      let (n, ring) =
        vqueue_num_of_avail_buf_and_notify (r.rx_writes v.rx_ring) r.rx_later v.rx_vq in
      elim (Bool-cases (n == 0)) [
        | inl z ↦
            rw (e, z) (inr (asks, inr (looked (r.rx_writes v.rx_ring) r.rx_later v.rx_vq p q z)))
        | inr z ↦
            rw (e, z)
              (inl (schedule_sched v.napi (sym (schedule_disable v.napi) ∙ (rw (e, z) at on))))
      ]
]

last_looks-Waits :
    (r : PollRound) (ret : Received) (v : Card)
    → r.tx_later < 0x10000
    → r.rx_later < 0x10000
    → v.tx_vq.last_avail_idx < 0x10000
    → v.rx_vq.last_avail_idx < 0x10000
    → (last_looks r ret v).napi.disable ≡ false
    → Waits ret (last_looks r ret v)
unfolding last_looks
last_looks-Waits r ret v p q i j on =
    let (n, ring) = vqueue_num_of_avail_buf_and_notify (r.tx_writes v.tx_ring) r.tx_later v.tx_vq in
    elim (Bool-cases (n == 0)) [
      | inl z ↦ rw z (
          look_at_rx-Waits r ret (record v { tx_ring = ring }) q j
            (looked (r.tx_writes v.tx_ring) r.tx_later v.tx_vq p i z) (rw z at on))
      | inr z ↦ rw z (inl (schedule_sched v.napi (sym (schedule_disable v.napi) ∙ (rw z at on))))
    ]

pub complete-Waits :
    (r : PollRound) (ret : Received) (v : Card)
    → (r.others v.napi).sched ≡ true
    → r.tx_later < 0x10000
    → r.rx_later < 0x10000
    → v.tx_vq.last_avail_idx < 0x10000
    → v.rx_vq.last_avail_idx < 0x10000
    → (complete r ret v).napi.disable ≡ false
    → Waits ret (complete r ret v)
unfolding complete napi_complete_done
complete-Waits r ret v owned p q i j on =
    elim (Bool-cases (not (r.others v.napi).disable && (r.others v.napi).missed)) [
      | inl e ↦ rw e (inl owned)
      | inr e ↦ rw e (
          last_looks-Waits r ret (record v { napi = record (r.others v.napi) { sched = false } }) p
            q i j (rw e at on))
    ]

look_at_rx-queues :
    (r : PollRound) (ret : Received) (v : Card)
    → ((look_at_rx r ret v).tx_vq ≡ v.tx_vq) × ((look_at_rx r ret v).rx_vq ≡ v.rx_vq)
unfolding look_at_rx
look_at_rx-queues r ret v = ground arith

pub complete-queues :
    (r : PollRound) (ret : Received) (v : Card)
    → ((complete r ret v).tx_vq ≡ v.tx_vq) × ((complete r ret v).rx_vq ≡ v.rx_vq)
unfolding complete last_looks
complete-queues r ret v = ground arith
