-- ===== src/Router/Egress.antt =====
-- `pktq_do_menqueue` and `router_pktq_tx`. A packet is the number of its buffer.
use trusted_gateway.Prelude.{
  ℕ, ◌+◌, Bool, ◌&&◌, not, List, ◌++◌, Outcome, ok, ◌>>=◌, if◌then◌else◌, ◌==◌, ◌!=◌, length, drop,
}
use trusted_gateway.Pktq.Ops.{Pktq, bulk_add_buff, drop_bufs, contig_bufs}
use trusted_gateway.Pktq.Burst.{slots_from}

-- The interface that the packets leave by, with the buffers that were given back to the pool and how
-- often `egress_ntfy_handler` was called.
pub record Ifnet : Type 0 where
  pub ifnet_idx : ℕ
  pub is_external : Bool
  pub queue : Pktq
  pub freed : List ℕ
  pub notified : ℕ

-- An interface that is not known is `none` of the lookup, and answers -1; this is the rest. `in_idx`
-- is the worker's own interface. The answer is the number of packets that were enqueued.
unfoldable pub pktq_do_menqueue : ℕ → Ifnet → List ℕ → ℕ × Ifnet
pktq_do_menqueue in_idx out m_pool =
    let (n, q) = bulk_add_buff out.queue m_pool in
    let stored = record out { queue = q; freed = drop n m_pool ++ out.freed } in
    if length m_pool == 0 then (0, out) else (
      n,
      (if not (n == 0) && (in_idx != out.ifnet_idx)
          then record stored { notified = out.notified + 1 }
          else stored),
    )

-- What `xmit_handler` answers: how many packets of the burst it has taken, or an error.
pub data Xmit : Type 0 where
  sent : ℕ → Xmit
  failed : Xmit

-- The second critical section of `router_pktq_tx`.
unfoldable pub free_spots : Pktq → Xmit → Outcome (Xmit × Pktq)
free_spots q failed = ok (failed, q)
free_spots q (sent n) = if n == 0 then ok (sent 0, q) else (drop_bufs q n >>= λ q'. ok (sent n, q'))

-- The packets that the handler is given.
abbrev pub burst : Pktq → List ℕ
burst q = slots_from q.pkt q.next_read (contig_bufs q)

-- `router_pktq_tx`, with the handler as a parameter, and with the packets that other workers enqueue
-- while it runs.
unfoldable pub router_pktq_tx : (List ℕ → Xmit) → List ℕ → Ifnet → Outcome (Xmit × Pktq)
unfolding free_spots
router_pktq_tx xmit_handler added ifp =
    let q = ifp.queue in
    if ifp.is_external && q.stopped
    then ok (sent 0, q)
    else (if contig_bufs q == 0
        then ok (sent 0, q)
        else free_spots (bulk_add_buff q added).1 (xmit_handler (burst q)))
