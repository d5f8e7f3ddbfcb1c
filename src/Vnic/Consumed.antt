-- ===== src/Vnic/Consumed.antt =====
-- What becomes of the packets that the router hands to the virtual card.
use trusted_gateway.Prelude.{
  ℕ, suc, ◌+◌, ◌≤◌, ◌≡◌, refl, ap, sym, ◌∙◌, Bool, false, ◌||◌, not, List, [], ◌∷◌, ◌++◌,
  append-nil, append_assoc, Option, none, some, Outcome, ok, panic, Ensures, Ensures-bind, ◌>>=◌,
  ◌⊎◌, arith, ◌==◌, ltb, leb, length, take, Bool-cases, inl, inr,
}
use trusted_gateway.Vqueue.State.{Ring, Vqueue, Iovs, Status, no_error}
use trusted_gateway.Vqueue.Avail.{vqueue_num_of_avail_buf}
use trusted_gateway.Vqueue.Iovs.{vqueue_map_iovs, vqueue_unmap_iovs}
use trusted_gateway.Ethbuf.Data.{bstgw_ethbuf_linearize}
use trusted_gateway.Iovec.Ops.{Memory}
use trusted_gateway.Vnic.Frames.{Frame, ids, hdr_len, get_avail_buf}
use trusted_gateway.Vnic.FlushTx.{first_len}
use trusted_gateway.Vnic.Receive.{
  Packet, Meanwhile, Rx, RxAfter, next, stop, with_list, pushed, put_packet, rx_copies, rx_with_buf,
  rx_on_status, rx_frame, rx_round, rx_go_on, rx_loop, Received, processed, rx_started,
  virtio_net_can_receive, virtio_net_receive,
}

-- The buffers of an array with NULL entries.
abbrev pub packet_ids : List (Option Packet) → List ℕ
packet_ids [] = []
packet_ids (none ∷ ps) = packet_ids ps
packet_ids (some p ∷ ps) = p.frame.id ∷ packet_ids ps

-- One round consumes the packet whole, or not at all, and then ends the loop.
abbrev Once : List ℕ → Rx → RxAfter → Type 0
Once own rx (next rx') = (rx'.processed ≡ rx.processed + 1) × (ids rx'.freed ≡ ids rx.freed ++ own)
Once own rx (stop rx') =
    ((rx'.processed ≡ rx.processed + 1) × (ids rx'.freed ≡ ids rx.freed ++ own))
    ⊎ ((rx'.processed ≡ rx.processed) × (ids rx'.freed ≡ ids rx.freed))

ids-append : (fs gs : List Frame) → ids (fs ++ gs) ≡ ids fs ++ ids gs
ids-append [] gs = refl
ids-append (f ∷ fs) gs = ap (λ xs. f.id ∷ xs) (ids-append fs gs)

pushed-Once : (rx_burst : ℕ) (f : Frame) (rx : Rx) → Once (f.id ∷ []) rx (pushed rx_burst f rx)
unfolding pushed
pushed-Once rx_burst f rx = elim (Bool-cases (leb rx_burst (rx.processed + 1))) [
  | inl e ↦ rw e (inl (omega arith, ids-append rx.freed (f ∷ [])))
  | inr e ↦ rw e (omega arith, ids-append rx.freed (f ∷ []))
]

rx_copies-Once :
    (rx_burst : ℕ) (l : Iovs) (f : Frame) (rx : Rx)
    → Ensures (Once (f.id ∷ []) rx) (rx_copies rx_burst l f rx)
unfolding rx_copies
rx_copies-Once rx_burst l f rx =
    Ensures-bind (Once (f.id ∷ []) rx) (put_packet rx.mem l.iovs f.eb) _ λ (fine, mem).
      Ensures-bind (Once (f.id ∷ []) rx) (vqueue_unmap_iovs l) _ λ l'. elim (Bool-cases fine) [
        | inl e ↦ rw e (pushed-Once rx_burst f (with_list l' (record rx { mem = mem })))
        | inr e ↦ rw e (inr (refl, refl))
      ]

module _ (va : ℕ → ℕ) (rx_burst : ℕ) where
  rx_with_buf-Once :
      (f : Frame) (rx : Rx) → Ensures (Once (f.id ∷ []) rx) (rx_with_buf va rx_burst f rx)
  unfolding rx_with_buf
  rx_with_buf-Once f rx = elim (Bool-cases (ltb rx.buf.out_iovs.used 1)) [
    | inl e ↦ rw e (inr (refl, refl))
    | inr e ↦ elim (Bool-cases (ltb (first_len rx.buf.out_iovs.iovs) (hdr_len + f.eb.data_len))) [
      | inl s ↦ rw (e, s) (inr (refl, refl))
      | inr s ↦
          rw (e, s)
            (Ensures-bind (Once (f.id ∷ []) rx) (vqueue_map_iovs va rx.buf.out_iovs) _ λ (l, done).
              elim (Bool-cases done) [
                | inl d ↦ rw d (rx_copies-Once rx_burst l f (with_list l rx))
                | inr d ↦ rw d (inr (refl, refl))
              ])
    ]
  ]

  rx_on_status-Once :
      (s : Status) (f : Frame) (rx : Rx)
      → Ensures (Once (f.id ∷ []) rx) (rx_on_status va rx_burst s f rx)
  unfolding rx_on_status
  rx_on_status-Once no_error f rx = rx_with_buf-Once f rx
  rx_on_status-Once s f rx = inr (refl, refl)

  rx_round-Once :
      (m : Meanwhile) (p : Option Packet) (rx : Rx)
      → Ensures (Once (packet_ids (p ∷ [])) rx) (rx_round va rx_burst m p rx)
  unfolding rx_round rx_frame
  rx_round-Once m none rx = (omega arith, sym (append-nil (ids rx.freed)))
  rx_round-Once m (some p) rx =
      Ensures-bind (Once (p.frame.id ∷ []) rx) (bstgw_ethbuf_linearize p.frame.eb p.rest) _
        λ (linear, (eb, rest)).
          let f : Frame = record p.frame { eb = eb } in
          elim (Bool-cases (not linear || (eb.data_len == 0))) [
            | inl e ↦ rw e (omega arith, ids-append rx.freed (f ∷ []))
            | inr e ↦ rw e (
                Ensures-bind (Once (p.frame.id ∷ []) rx)
                  (get_avail_buf (m.writes rx.ring) rx.vq rx.buf) _
                  λ (s, b, vq). rx_on_status-Once s f (record rx {
                    ring = m.writes rx.ring;
                    vq = vq;
                    buf = b;
                    mem = m.stores rx.mem;
                  }))
          ]

-- The first `n` packets of the array are consumed, and no others.
abbrev pub Consumed : List (Option Packet) → Rx → Rx → Type 0
Consumed ps rx rx' =
    (n : ℕ) × (n ≤ length ps)
    × (rx'.processed ≡ rx.processed + n)
    × (ids rx'.freed ≡ ids rx.freed ++ packet_ids (take n ps))

packet_ids-cons :
    (p : Option Packet) (ps : List (Option Packet))
    → packet_ids (p ∷ ps) ≡ packet_ids (p ∷ []) ++ packet_ids ps
packet_ids-cons none ps = refl
packet_ids-cons (some p) ps = refl

-- None of the packets.
no_more :
    (ps : List (Option Packet)) (rx rx' : Rx)
    → rx'.processed ≡ rx.processed
    → ids rx'.freed ≡ ids rx.freed
    → Consumed ps rx rx'
no_more ps rx rx' e f = (0, omega arith, omega (arith, e), f ∙ sym (append-nil (ids rx.freed)))

-- The first packet, and then the first `n` of the others.
one_more :
    (p : Option Packet) (ps : List (Option Packet)) (rx mid rx' : Rx)
    → mid.processed ≡ rx.processed + 1
    → ids mid.freed ≡ ids rx.freed ++ packet_ids (p ∷ [])
    → Consumed ps mid rx'
    → Consumed (p ∷ ps) rx rx'
one_more p ps rx mid rx' e f (n, few, count_eq, freed_eq) = (
  suc n,
  omega arith,
  omega (arith, e, count_eq),
  freed_eq
      ∙ ap (λ xs. xs ++ packet_ids (take n ps)) f
      ∙ append_assoc (ids rx.freed) (packet_ids (p ∷ [])) (packet_ids (take n ps))
      ∙ ap (λ xs. ids rx.freed ++ xs) (sym (packet_ids-cons p (take n ps))),
)

module _ (va : ℕ → ℕ) (rx_burst : ℕ) where
  rx_loop-Consumed :
      (m : ℕ → Meanwhile) (ps : List (Option Packet)) (i : ℕ) (rx : Rx)
      → Ensures (Consumed ps rx) (rx_loop va rx_burst m ps i rx)
  unfolding rx_loop
  rx_loop-Consumed m [] i rx = no_more [] rx rx refl refl
  rx_loop-Consumed m (p ∷ ps) i rx =
      settle (rx_round va rx_burst (m i) p rx) (rx_round-Once va rx_burst (m i) p rx)
        (rx_loop-Consumed m ps (i + 1))
    where
      later :
          (mid : Rx) (o : Outcome Rx)
          → mid.processed ≡ rx.processed + 1
          → ids mid.freed ≡ ids rx.freed ++ packet_ids (p ∷ [])
          → Ensures (Consumed ps mid) o
          → Ensures (Consumed (p ∷ ps) rx) o
      later mid (ok rx') e f h = one_more p ps rx mid rx' e f h
      later mid (panic x) e f h = tt

      settle :
          (o : Outcome RxAfter)
          → Ensures (Once (packet_ids (p ∷ [])) rx) o
          → ((mid : Rx) → Ensures (Consumed ps mid) (rx_loop va rx_burst m ps (i + 1) mid))
          → Ensures (Consumed (p ∷ ps) rx) (o >>= rx_go_on (rx_loop va rx_burst m ps (i + 1)))
      settle (ok (next mid)) (e, f) again =
          later mid (rx_loop va rx_burst m ps (i + 1) mid) e f (again mid)
      settle (ok (stop rx')) (inl (e, f)) again =
          one_more p ps rx rx' rx' e f (no_more ps rx' rx' refl refl)
      settle (ok (stop rx')) (inr (e, f)) again = no_more (p ∷ ps) rx rx' e f
      settle (panic x) h again = tt

  -- What the answer says of the buffers: those of the first packets, as many as it counts, have been
  -- given back to the pool, once and in order, and no others; none on the other answers.
  abbrev pub Reported : List (Option Packet) → Received × (Bool × Rx) → Type 0
  Reported ps (processed n, (kicked, rx)) =
      (n ≤ length ps) × (ids rx.freed ≡ packet_ids (take n ps))
  Reported ps (r, (kicked, rx)) = (ids rx.freed ≡ []) × (kicked ≡ false)

  -- A call of `virtio_net_receive` that returns has given the buffers of the first packets of the
  -- array back to the pool, as many packets as its answer counts, in order, each once, and no others:
  -- so the caller can drop exactly these. On the other answers it has given back none, and does not
  -- notify the normal world.
  pub virtio_net_receive-Reported :
      (driver_ok : Bool) (m : ℕ → Meanwhile) (ps : List (Option Packet)) (ring : Ring) (vq : Vqueue)
      (mem : Memory)
      → Ensures (Reported ps) (virtio_net_receive va rx_burst driver_ok m ps ring vq mem)
  unfolding virtio_net_receive
  virtio_net_receive-Reported driver_ok m ps ring vq mem =
      elim (Bool-cases (not (virtio_net_can_receive driver_ok vq))) [
        | inl e ↦ rw e (refl, refl)
        | inr e ↦ rw e (
            Ensures-bind (Reported ps) (vqueue_num_of_avail_buf ring vq) _ λ space.
              elim (Bool-cases (space == 0)) [
                | inl n ↦ rw n (refl, refl)
                | inr n ↦ elim (Bool-cases (ltb space 128)) [
                  | inl f ↦ rw (n, f) (refl, refl)
                  | inr f ↦
                      rw (n, f)
                        (settle (rx_loop va rx_burst m ps 0 (rx_started ring vq mem))
                          (rx_loop-Consumed m ps 0 (rx_started ring vq mem)))
                ]
              ])
      ]
    where
      settle :
          (o : Outcome Rx)
          → Ensures (Consumed ps (rx_started ring vq mem)) o
          → Ensures (Reported ps) (o >>= λ rx. ok (processed rx.processed, (ltb 0 rx.enqueued, rx)))
      settle (ok rx) (n, few, e, f) =
          let same : rx.processed ≡ n = omega (arith, e) in
          (omega arith, f ∙ ap (λ k. packet_ids (take k ps)) (sym same))
      settle (panic x) h = tt
