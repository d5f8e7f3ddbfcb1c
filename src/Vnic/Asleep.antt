-- ===== src/Vnic/Asleep.antt =====
-- What a polling of the virtual card leaves behind.
use trusted_gateway.Prelude.{
  ℕ, zero, suc, ◌+◌, ◌≤◌, ◌<◌, ◌≡◌, ◌⊎◌, inl, inr, refl, ap, subst, sym, ◌∙◌, Bool, true, false,
  ◌||◌, not, Option, none, some, Outcome, ok, panic, Ensures, Ensures-bind, Ensures-bind_with, List,
  ◌>>=◌, arith, ◌==◌, ltb, if◌then◌else◌, Bool-cases,
}
use trusted_gateway.Vqueue.State.{Vqueue}
use trusted_gateway.Pktq.Ops.{Pktq, contig_bufs}
use trusted_gateway.Napi.Ops.{Napi}
use trusted_gateway.Router.Egress.{Xmit, burst}
use trusted_gateway.Vnic.FlushTx.{Flush, virtio_net_flush_tx}
use trusted_gateway.Vnic.Receive.{Packet, Received, virtio_net_receive}
use trusted_gateway.Vnic.Poll.{
  Card, PollRound, masked, packets, flush_count, flush_event, tx_event, complete, vnic_xmit_handler,
  transmit, flush_tx, poll_round, poll_loop, vnic_poll,
}
use trusted_gateway.Vnic.Complete.{Waits, complete-Waits, complete-queues}

module _ (get_va : ℕ → ℕ) (driver_ok : Bool) (tx_burst rx_burst : ℕ) where
  abbrev SameNapi {ℓ} : {A : Type ℓ} → Card → A × Card → Type 0
  SameNapi v (a, v') = v'.napi ≡ v.napi

  xmit-SameNapi :
      (r : PollRound) (pkts : List (Option Packet)) (v : Card)
      → Ensures (SameNapi v) (vnic_xmit_handler get_va driver_ok tx_burst rx_burst r pkts v)
  unfolding vnic_xmit_handler
  xmit-SameNapi r pkts v = elim (Bool-cases (v.tx_vq.vring_addr == 0)) [
    | inl z ↦ rw z refl
    | inr z ↦ rw z (
        Ensures-bind (SameNapi v)
          (virtio_net_receive get_va rx_burst driver_ok r.meanwhile pkts v.rx_ring v.rx_vq v.mem) _
          λ (ret, (kicked, rx)). refl)
  ]

  transmit-SameNapi :
      (r : PollRound) (v : Card)
      → Ensures (SameNapi v) (transmit get_va driver_ok tx_burst rx_burst r v)
  unfolding transmit
  transmit-SameNapi r v = elim (Bool-cases (contig_bufs v.net_device.queue == 0)) [
    | inl e ↦ rw e refl
    | inr e ↦ rw e (
        Ensures-bind_with (SameNapi v)
          (vnic_xmit_handler get_va driver_ok tx_burst rx_burst r
            (packets r.packet_of (burst v.net_device.queue)) v)
          _ (xmit-SameNapi r (packets r.packet_of (burst v.net_device.queue)) v)
          (λ (ret, v') same. settle ret v' same _))
  ]
    where
      settle :
          (ret : Received) (v' : Card)
          → v'.napi ≡ v.napi
          → (o : Outcome (Xmit × Pktq))
          → Ensures (SameNapi v) (
              o >>= λ (x, q').
              ok (ret, record v' { net_device = record v.net_device { queue = q' } }))
      settle ret v' same o = Ensures-bind (SameNapi v) o _ λ (x, q'). same

  -- The last round of a polling that ended for want of events: `ret` is what its transmission
  -- answered, and `w` the card after it.
  pub record Ended (rounds : ℕ → PollRound) (napi : Napi) (v : Card) : Type 0 where
    pub at : ℕ
    pub ret : Received
    pub before : Card
    pub after : Card
    pub sent : transmit get_va driver_ok tx_burst rx_burst (rounds at) before ≡ ok (ret, after)
    pub no_event : tx_event ret ≡ false
    pub same_napi : after.napi ≡ napi
    pub completed : v ≡ complete (rounds at) ret after

  abbrev RoundEnd : (ℕ → PollRound) → Card → ℕ × (Bool × Card) → Type 0
  RoundEnd rounds v (n, (false, v')) = v'.napi ≡ v.napi
  RoundEnd rounds v (n, (true, v')) = Ended rounds v.napi v'

  poll_round-End :
      (rounds : ℕ → PollRound) (i : ℕ) (v : Card)
      → Ensures (RoundEnd rounds v) (poll_round get_va driver_ok tx_burst rx_burst (rounds i) v)
  unfolding poll_round flush_tx
  poll_round-End rounds i v =
      Ensures-bind_with (RoundEnd rounds v)
        (flush_tx get_va driver_ok tx_burst rx_burst (rounds i) v) _ flushed
        λ (a, v') same.
          after a v' same (transmit get_va driver_ok tx_burst rx_burst (rounds i) v') refl
            (transmit-SameNapi (rounds i) v')
    where
      flushed : Ensures (SameNapi v) (flush_tx get_va driver_ok tx_burst rx_burst (rounds i) v)
      flushed =
          Ensures-bind (SameNapi v)
            (virtio_net_flush_tx get_va driver_ok tx_burst (rounds i).fec (rounds i).allocated
              (rounds i).rounds v.tx_ring v.tx_vq)
            _ λ f. refl

      no_tx_event :
          (a : Flush) (ret : Received)
          → (flush_event a || tx_event ret) ≡ false
          → tx_event ret ≡ false
      no_tx_event a ret e = ground (arith, e)

      after :
          (a : Flush) (v' : Card)
          → v'.napi ≡ v.napi
          → (o : Outcome (Received × Card))
          → transmit get_va driver_ok tx_burst rx_burst (rounds i) v' ≡ o
          → Ensures (SameNapi v') o
          → Ensures (RoundEnd rounds v) (
              o >>= λ (ret, v''). ok (
                flush_count a,
                (if flush_event a || tx_event ret
                    then (false, v'')
                    else (true, complete (rounds i) ret v'')),
              ))
      after a v' same (panic e) sent h = tt
      after a v' same (ok (ret, w)) sent h = elim (Bool-cases (flush_event a || tx_event ret)) [
        | inl e ↦ rw e (h ∙ same)
        | inr e ↦ rw e (record {
          at = i;
          ret = ret;
          before = v';
          after = w;
          sent = sent;
          no_event = no_tx_event a ret e;
          same_napi = h ∙ same;
          completed = refl;
        })
      ]

  abbrev LoopEnd : ℕ → (ℕ → PollRound) → Napi → Option (ℕ × Card) → Type 0
  LoopEnd budget rounds napi none = Unit
  LoopEnd budget rounds napi (some (n, v)) = (budget ≤ n) ⊎ Ended rounds napi v

  poll_loop-End :
      (budget : ℕ) (rounds : ℕ → PollRound) (fuel i pkts : ℕ) (v : Card)
      → Ensures
          (LoopEnd budget rounds v.napi)
          (poll_loop get_va driver_ok tx_burst rx_burst budget rounds fuel i pkts v)
  unfolding poll_loop
  poll_loop-End budget rounds zero i pkts v = tt
  poll_loop-End budget rounds (suc fuel) i pkts v =
      Ensures-bind_with (LoopEnd budget rounds v.napi)
        (poll_round get_va driver_ok tx_burst rx_burst (rounds i) v) _ (poll_round-End rounds i v)
        λ (n, (last, v')) h.
          settle n last v' h (poll_loop-End budget rounds fuel (i + 1) (pkts + n) v')
    where
      settle :
          (n : ℕ) (last : Bool) (v' : Card)
          → RoundEnd rounds v (n, (last, v'))
          → Ensures (LoopEnd budget rounds v'.napi) (
              poll_loop get_va driver_ok tx_burst rx_burst budget rounds fuel (i + 1) (pkts + n) v')
          → Ensures (LoopEnd budget rounds v.napi) (
              if last || not (ltb (pkts + n) budget)
              then ok (some (pkts + n, v'))
              else poll_loop get_va driver_ok tx_burst rx_burst budget rounds fuel
                  (i + 1)
                  (pkts + n)
                  v')
      settle n true v' h rest = inr h
      settle n false v' same rest = elim (Bool-cases (ltb (pkts + n) budget)) [
        | inl e ↦ rw e (
            subst
              (λ p. Ensures (LoopEnd budget rounds p) (
                poll_loop get_va driver_ok tx_burst rx_burst budget rounds fuel (i + 1) (pkts + n)
                  v'))
              same rest)
        | inr e ↦ rw e (inl (ground (arith, e)))
      ]

  Ended-Waits :
      (rounds : ℕ → PollRound) (napi : Napi) (v : Card) (e : Ended rounds napi v)
      → ((rounds e.at).others napi).sched ≡ true
      → (rounds e.at).tx_later < 0x10000
      → (rounds e.at).rx_later < 0x10000
      → v.tx_vq.last_avail_idx < 0x10000
      → v.rx_vq.last_avail_idx < 0x10000
      → v.napi.disable ≡ false
      → Waits e.ret v
  Ended-Waits rounds napi v e owned p q i j on =
      let (tx, rx) = complete-queues (rounds e.at) e.ret e.after in
      let back = λ (vq : Vqueue) (vq' : Vqueue) (same : vq ≡ vq') (h : vq.last_avail_idx < 0x10000).
        subst (λ u. u.last_avail_idx < 0x10000) same h in
      subst (Waits e.ret) (sym e.completed) (
        complete-Waits (rounds e.at) e.ret e.after
          (ap (λ m. ((rounds e.at).others m).sched) e.same_napi ∙ owned) p q
          (back v.tx_vq e.after.tx_vq (ap (λ w. w.tx_vq) e.completed ∙ tx) i)
          (back v.rx_vq e.after.rx_vq (ap (λ w. w.rx_vq) e.completed ∙ rx) j)
          (ap (λ w. w.napi.disable) (sym e.completed) ∙ on))

  -- No wake-up is lost. A polling of the virtual card, whose NAPI the worker owns and nobody has
  -- disabled by its end, and whose 16-bit indices are of 16 bits, ends in one of three ways. It has
  -- spent its budget. Or the NAPI is scheduled, so that the worker polls again. Or it is not, and then
  -- the normal world is asked to notify of packets, with none in the ring at the last look, and if the
  -- last transmission found no buffer for a packet, it is asked to notify of buffers too, with none in
  -- the ring at the last look.
  pub vnic_poll-Waits :
      (budget : ℕ) (rounds : ℕ → PollRound) (fuel : ℕ) (v : Card) (n : ℕ) (v' : Card)
      → ((i : ℕ) → ((rounds i).others v.napi).sched ≡ true)
      → ((i : ℕ) → (rounds i).tx_later < 0x10000)
      → ((i : ℕ) → (rounds i).rx_later < 0x10000)
      → v'.tx_vq.last_avail_idx < 0x10000
      → v'.rx_vq.last_avail_idx < 0x10000
      → v'.napi.disable ≡ false
      → vnic_poll get_va driver_ok tx_burst rx_burst budget rounds fuel v ≡ ok (some (n, v'))
      → (budget ≤ n) ⊎ ((e : Ended rounds v.napi v') × Waits e.ret v')
  unfolding vnic_poll
  vnic_poll-Waits budget rounds fuel v n v' owned p q i j on h =
      settle (subst (Ensures (LoopEnd budget rounds v.napi)) h polled)
    where
      polled :
          Ensures
            (LoopEnd budget rounds v.napi)
            (vnic_poll get_va driver_ok tx_burst rx_burst budget rounds fuel v)
      polled = elim (Bool-cases ((v.rx_vq.vring_addr == 0) || (v.tx_vq.vring_addr == 0))) [
        | inl z ↦ rw z tt
        | inr z ↦ rw z (poll_loop-End budget rounds fuel 0 0 (masked v))
      ]

      settle :
          (budget ≤ n) ⊎ Ended rounds v.napi v'
          → (budget ≤ n) ⊎ ((e : Ended rounds v.napi v') × Waits e.ret v')
      settle (inl spent) = inl spent
      settle (inr e) = inr (e, Ended-Waits rounds v.napi v' e (owned e.at) (p e.at) (q e.at) i j on)
