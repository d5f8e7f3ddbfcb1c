-- ===== src/Router/Flow.antt =====
-- No packet is lost, doubled or overtaken on its way out.
use trusted_gateway.Prelude.{
  ℕ, zero, suc, ◌+◌, ◌-◌, ◌≤◌, ◌≡◌, ◌⊎◌, refl, ap, sym, subst, ◌∙◌, false, ◌&&◌, not, List, [], ◌∷◌,
  ◌++◌, append-nil, min, Returns, arith, length, take, drop, length-append, take-append-drop, inl,
  inr, ◌==◌, ◌!=◌, if◌then◌else◌, Bool-cases, Outcome-cases,
}
use trusted_gateway.Pktq.Ops.{Pktq, bulk_add_buff, drop_bufs, contig_bufs}
use trusted_gateway.Pktq.Contents.{contents, IsValid, length-items}
use trusted_gateway.Pktq.Refine.{bulk_add_buff_lem, drop_bufs_lem}
use trusted_gateway.Pktq.Burst.{slots_from, contig_bufs_lem, contig_bufs_bounds}
use trusted_gateway.Router.Egress.{
  Ifnet, pktq_do_menqueue, Xmit, sent, failed, free_spots, burst, router_pktq_tx,
}

-- Enqueueing into a valid queue: as many packets as fit go to the end of the queue, in their order,
-- and all others, and no more, go back to the pool. The interface is notified exactly if a packet was
-- enqueued and the worker is another interface's.
pub pktq_do_menqueue_lem :
    (in_idx : ℕ) (out : Ifnet) (m_pool : List ℕ)
    → IsValid out.queue
    → let (n, out') = pktq_do_menqueue in_idx out m_pool in
      (n ≡ min (length m_pool) (out.queue.capacity - out.queue.count))
      × ((kept given_back : List ℕ) × (kept ++ given_back ≡ m_pool)
          × (contents out'.queue ≡ contents out.queue ++ kept)
          × (out'.freed ≡ given_back ++ out.freed))
      × (out'.notified
          ≡ out.notified + (if not (n == 0) && (in_idx != out.ifnet_idx) then 1 else 0))
      × IsValid out'.queue
unfolding pktq_do_menqueue
pktq_do_menqueue_lem in_idx out [] v =
    (omega arith, ([], [], refl, sym (append-nil (contents out.queue)), refl), omega arith, v)
pktq_do_menqueue_lem in_idx out (m ∷ ms) v =
    let (e, c, w) = bulk_add_buff_lem out.queue (m ∷ ms) v in
    let n = (bulk_add_buff out.queue (m ∷ ms)).0 in
    let split = take-append-drop n (m ∷ ms) in
    elim (Bool-cases (not (n == 0) && (in_idx != out.ifnet_idx))) [
      | inl t ↦
          rw some_packets (rw t (e, (take n (m ∷ ms), drop n (m ∷ ms), split, c, refl), refl, w))
      | inr t ↦
          rw some_packets
            (rw t (e, (take n (m ∷ ms), drop n (m ∷ ms), split, c, refl), omega arith, w))
    ]
  where
    some_packets : (length (m ∷ ms) == 0) ≡ false
    some_packets = ground arith

-- The handler takes no more packets than it is given.
abbrev pub TakesAtMost : List ℕ → Xmit → Type 0
TakesAtMost given (sent n) = n ≤ length given
TakesAtMost given failed = Unit {0}

-- What a transmission ends in, from a valid queue into which `kept` was enqueued meanwhile.
abbrev pub Transmitted : (List ℕ → Xmit) → List ℕ → Pktq → Xmit × Pktq → Type 0
Transmitted xmit_handler kept q (sent n, q') =
    IsValid q'
    × (((n ≡ 0) × (contents q' ≡ contents q))
        ⊎ ((xmit_handler (burst q) ≡ sent n)
            × (burst q ≡ take (length (burst q)) (contents q))
            × (contents q' ≡ drop n (contents q ++ kept))))
Transmitted xmit_handler kept q (failed, q') =
    IsValid q' × (xmit_handler (burst q) ≡ failed) × (contents q' ≡ contents q ++ kept)

length-slots : (pkt : List ℕ) (r n : ℕ) → length (slots_from pkt r n) ≡ n
length-slots pkt r zero = refl
length-slots pkt r (suc n) = ap suc (length-slots pkt (r + 1) n)

tx-Transmitted :
    (xmit_handler : List ℕ → Xmit) (q q1 : Pktq) (kept : List ℕ) (x : Xmit)
    → IsValid q1
    → contents q1 ≡ contents q ++ kept
    → contig_bufs q ≤ q1.count
    → length (burst q) ≡ contig_bufs q
    → burst q ≡ take (length (burst q)) (contents q)
    → xmit_handler (burst q) ≡ x
    → TakesAtMost (burst q) x
    → Returns (Transmitted xmit_handler kept q) (free_spots q1 x)
unfolding free_spots
tx-Transmitted xmit_handler q q1 kept failed v c few l b e t = (v, e, c)
tx-Transmitted xmit_handler q q1 kept (sent n) v c few l b e t = elim (Bool-cases (n == 0)) [
  | inl z ↦ rw z (v, inr (e ∙ ap sent {x = n} (ground (arith, z)), b, c))
  | inr z ↦ elim (Outcome-cases (drop_bufs q1 n)) [
    | inl (q2, f) ↦
        let (d, w) = subst (Returns Dropped) f dropped in
        rw z (rw f (w, inr (e, b, d ∙ ap (drop n) c)))
    | inr (y, f) ↦ absurd (subst (Returns Dropped) f dropped)
  ]
]
  where
    Dropped : Pktq → Type 0
    Dropped q2 = (contents q2 ≡ drop n (contents q1)) × IsValid q2

    dropped : Returns Dropped (drop_bufs q1 n)
    dropped = drop_bufs_lem q1 n (omega arith) v

-- A transmission from a valid queue, by a handler that takes at most what it is given, returns. The
-- handler is given the oldest packets, in their order; those that it takes, and no others, leave the
-- queue, also if others enqueue meanwhile, and their packets stay at the end. On its error, or if it
-- is not called, none leave.
pub router_pktq_tx-Transmitted :
    (xmit_handler : List ℕ → Xmit) (added : List ℕ) (ifp : Ifnet)
    → IsValid ifp.queue
    → TakesAtMost (burst ifp.queue) (xmit_handler (burst ifp.queue))
    → Returns
        (Transmitted xmit_handler (take (bulk_add_buff ifp.queue added).0 added) ifp.queue)
        (router_pktq_tx xmit_handler added ifp)
unfolding router_pktq_tx
router_pktq_tx-Transmitted xmit_handler added ifp v t =
    elim (Bool-cases (ifp.is_external && q.stopped)) [
      | inl e ↦ rw e (v, inl (refl, refl))
      | inr e ↦ elim (Bool-cases (contig_bufs q == 0)) [
        | inl z ↦ rw e (rw z (v, inl (refl, refl)))
        | inr z ↦
            let (e', c, w) = bulk_add_buff_lem q added v in
            let (n, q1) = bulk_add_buff q added in
            let (few, fits, some_left) = contig_bufs_bounds q v in
            rw e (
              rw z (
                tx-Transmitted xmit_handler q q1 (take n added) (xmit_handler (burst q)) w c
                  (omega (
                    arith,
                    few,
                    length-items q1.pkt q1.capacity q1.next_read 0 q1.count,
                    length-items q.pkt q.capacity q.next_read 0 q.count,
                    ap length c,
                    length-append (contents q) (take n added),
                  ))
                  (length-slots q.pkt q.next_read (contig_bufs q))
                  ((contig_bufs_lem q v).1
                    ∙ ap (λ j. take j (contents q))
                        (sym (length-slots q.pkt q.next_read (contig_bufs q))))
                  refl t))
      ]
    ]
  where
    q : Pktq
    q = ifp.queue
