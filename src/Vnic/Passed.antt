-- ===== src/Vnic/Passed.antt =====
-- What a whole call of `virtio_net_flush_tx` passes to the router.
use trusted_gateway.Prelude.{
  ℕ, zero, suc, ◌+◌, ◌-◌, ◌≤◌, ◌≡◌, ◌≢◌, refl, ap, subst, sym, Bool, false, List, [], ◌∷◌, ◌++◌,
  Option, none, some, Outcome, ok, panic, bad_ring, Returns, ◌>>=◌, arith, ltb, ◌==◌, not, min, max,
  Bool-cases, inl, inr, length, length-append,
}
use trusted_gateway.Vqueue.State.{Ring, Vqueue, Buf, Status, no_error}
use trusted_gateway.Vqueue.Avail.{avail_count, vqueue_num_of_avail_buf, vqueue_get_avail_buf}
use trusted_gateway.Vqueue.Chain.{vqueue_get_avail_buf-ne-none}
use trusted_gateway.Vqueue.Corrupt.{Corrupted, vqueue_get_avail_buf-Corrupted}
use trusted_gateway.Vqueue.Readable.{
  Readable, SmallDescs, CallReadable, vqueue_get_avail_buf-Readable,
}
use trusted_gateway.Pktq.Ops.{Pktq}
use trusted_gateway.Ethbuf.Bytes.{IsValid}
use trusted_gateway.Vnic.Frames.{Frame, ended_call, get_avail_buf}
use trusted_gateway.Vnic.FlushTx.{
  Round, Tx, After, next, flush, leave, with_buf, on_status, aligned, with_frame, from_pool,
  tx_round, go_on, tx_loop, Flushed, finish, started, router_in_burst_size, virtio_net_flush_tx,
}
use trusted_gateway.Vnic.Delivered.{Fresh, Delivered, with_buf-Delivered}

-- The call returns, or panics because of what `bad` says that the normal world has done.
abbrev pub Safe {ℓ} : {A : Type ℓ} → Type 0 → (A → Type 0) → Outcome A → Type 0
Safe bad P (ok a) = P a
Safe bad P (panic e) = (e ≡ bad_ring) × bad

Safe-bind {ℓ κ} :
    {A : Type ℓ} {B : Type κ} {P : A → Type 0} (bad : Type 0) (Q : B → Type 0) (o : Outcome A)
    (k : A → Outcome B)
    → Safe bad P o
    → ((a : A) → P a → Safe bad Q (k a))
    → Safe bad Q (o >>= k)
Safe-bind bad Q (ok a) k h f = f a h
Safe-bind bad Q (panic e) k h f = h

Safe-because {ℓ} :
    {A : Type ℓ} (P : A → Type 0) (bad worse : Type 0) (o : Outcome A)
    → (bad → worse)
    → Safe bad P o
    → Safe worse P o
Safe-because P bad worse (ok a) f h = h
Safe-because P bad worse (panic e) f (l, c) = (l, f c)

-- Packets of 42 to 2046 bytes that lie inside their arrays.
abbrev pub AllPackets : List Frame → Type 0
AllPackets [] = Unit
AllPackets (g ∷ gs) = (IsValid g.eb × (42 ≤ g.eb.data_len) × (g.eb.data_len ≤ 2046)) × AllPackets gs

AllPackets-append : (fs gs : List Frame) → AllPackets fs → AllPackets gs → AllPackets (fs ++ gs)
AllPackets-append [] gs h k = k
AllPackets-append (f ∷ fs) gs (h, hs) k = (h, AllPackets-append fs gs hs k)

-- The loop's packets, at most `n` of them.
record Fine (n : ℕ) (t : Tx) : Type 0 where
  packets : AllPackets t.frames
  few : length t.frames ≤ n
  four : t.buf.in_iovs.cnt ≡ 4

abbrev FineAfter : ℕ → After → Type 0
FineAfter n (next t) = Fine (suc n) t
FineAfter n (flush t) = AllPackets t.frames × (length t.frames ≤ n)
FineAfter n (leave e t) = t.frames ≡ []

-- The loop does not end with another round.
abbrev FineEnd : ℕ → After → Type 0
FineEnd n (next t) = ⊥
FineEnd n (flush t) = AllPackets t.frames × (length t.frames ≤ n)
FineEnd n (leave e t) = t.frames ≡ []

-- The result of taking a buffer off the ring.
abbrev Got : Status × Buf × Vqueue → Type 0
Got (no_error, b, vq) = Readable b.in_iovs
Got (s, b, vq) = b.in_iovs.cnt ≡ 4

get-Got :
    (ring : Ring) (vq : Vqueue) (b : Buf)
    → SmallDescs ring
    → b.in_iovs.cnt ≡ 4
    → Safe (Corrupted ring vq) Got (get_avail_buf ring vq b)
unfolding get_avail_buf
get-Got ring vq b small four =
    settle (vqueue_get_avail_buf ring vq b) refl
      (vqueue_get_avail_buf-Readable ring vq b small four)
  where
    settle :
        (o : Option (Outcome (Status × Buf × Vqueue)))
        → vqueue_get_avail_buf ring vq b ≡ o
        → CallReadable o
        → Safe (Corrupted ring vq) Got (ended_call o)
    settle none e h = absurd (vqueue_get_avail_buf-ne-none ring vq b e)
    settle (some (panic x)) e h = vqueue_get_avail_buf-Corrupted ring vq b e
    settle (some (ok (no_error, c, vq'))) e h = h
    settle (some (ok (s, c, vq'))) e h = h

module _ (va : ℕ → ℕ) where
  with_buf-Fine :
      (bad : Type 0) (n : ℕ) (r : Round) (f : Frame) (t : Tx)
      → Readable t.buf.in_iovs
      → Fresh f
      → f.eb.data_off ≡ 2
      → AllPackets t.frames
      → length t.frames ≤ n
      → Safe bad (FineAfter n) (with_buf va r f t)
  with_buf-Fine bad n r f t v fresh off packets few =
      settle (with_buf va r f t) (with_buf-Delivered va r f t v fresh off)
    where
      settle : (o : Outcome After) → Returns (Delivered va r f t) o → Safe bad (FineAfter n) o
      settle (ok (next t')) (c, inl (same, fr)) = record {
        packets = subst AllPackets (sym same) packets;
        few = omega (arith, ap length same);
        four = c;
      }
      settle (ok (next t')) (c, inr (g, more, i, fine, low, high, bs)) = record {
        packets =
            subst AllPackets (sym more)
              (AllPackets-append t.frames (g ∷ []) packets ((fine, low, high), tt));
        few = omega (arith, ap length more, length-append {0} t.frames (g ∷ []));
        four = c;
      }
      settle (ok (flush t')) h = absurd h
      settle (ok (leave e t')) h = h
      settle (panic e) h = absurd h

  on_status-Fine :
      (bad : Type 0) (n : ℕ) (r : Round) (f : Frame) (s : Status) (t : Tx)
      → Got (s, t.buf, t.vq)
      → Fresh f
      → f.eb.data_off ≡ 2
      → AllPackets t.frames
      → length t.frames ≤ n
      → Safe bad (FineAfter n) (on_status va r f s t)
  unfolding on_status
  on_status-Fine bad n r f Status.no_error t g fresh off packets few =
      with_buf-Fine bad n r f t g fresh off packets few
  on_status-Fine bad n r f Status.not_enough_buffer t g fresh off packets few =
      (packets, omega arith)
  on_status-Fine bad n r f s t g fresh off packets few = refl

  -- The normal world's descriptors are of less than a gigabyte, with the same length at both reads,
  -- and the pool hands out whole buffers.
  abbrev pub Tame : (ℕ → Round) → Type 0
  Tame rounds =
      (i : ℕ)
      → ((ring : Ring) → SmallDescs ((rounds i).writes ring))
        × ((f : Frame) → (rounds i).frame ≡ some f → Fresh f)

  -- The variables at the start of round `j`, after rounds that have gone on to the next from `i`.
  pub data Reached (rounds : ℕ → Round) : ℕ → Tx → ℕ → Tx → Type 0 where
    here : (i : ℕ) (t : Tx) → Reached rounds i t i t
    after :
        (i j : ℕ) (t t' t'' : Tx)
        → tx_round va (rounds i) t ≡ ok (next t')
        → Reached rounds (i + 1) t' j t''
        → Reached rounds i t j t''

  -- In a round that is reached, the ring is corrupted.
  pub record Spoilt (rounds : ℕ → Round) (i : ℕ) (t : Tx) : Type 0 where
    pub at : ℕ
    pub then_tx : Tx
    pub reached : Reached rounds i t at then_tx
    pub corrupted : Corrupted ((rounds at).writes then_tx.ring) then_tx.vq

  from_pool-Fine :
      (n : ℕ) (r : Round) (o : Option Frame) (t : Tx)
      → ((ring : Ring) → SmallDescs (r.writes ring))
      → ((f : Frame) → o ≡ some f → Fresh f)
      → Fine n t
      → Safe (Corrupted (r.writes t.ring) t.vq) (FineAfter n) (from_pool va r o t)
  unfolding from_pool with_frame
  from_pool-Fine n r none t small fresh h = (h.packets, omega (arith, h.few))
  from_pool-Fine n r (some f) t small fresh h =
      Safe-bind {P = Got} (Corrupted (r.writes t.ring) t.vq) (FineAfter n)
        (get_avail_buf (r.writes t.ring) t.vq t.buf) _
        (get-Got (r.writes t.ring) t.vq t.buf (small t.ring) h.four)
        (λ (s, buf, vq) g.
          on_status-Fine (Corrupted (r.writes t.ring) t.vq) n r (aligned f) s
            (record t { ring = r.writes t.ring; vq = vq; buf = buf; got = aligned f ∷ t.got }) g
            (fresh f refl) refl h.packets h.few)

  tx_round-Fine :
      (n : ℕ) (r : Round) (t : Tx)
      → ((ring : Ring) → SmallDescs (r.writes ring))
      → ((f : Frame) → r.frame ≡ some f → Fresh f)
      → Fine n t
      → Safe (Corrupted (r.writes t.ring) t.vq) (FineAfter n) (tx_round va r t)
  unfolding tx_round
  tx_round-Fine n r t small fresh h = from_pool-Fine n r r.frame t small fresh h

  tx_loop-Fine :
      (rounds : ℕ → Round) (left i n : ℕ) (t : Tx)
      → Tame rounds
      → Fine n t
      → Safe (Spoilt rounds i t) (FineEnd (n + left)) (tx_loop va rounds left i t)
  unfolding tx_loop
  tx_loop-Fine rounds zero i n t tame h = (h.packets, omega (arith, h.few))
  tx_loop-Fine rounds (suc left) i n t tame h =
      settle (λ t' h'. tx_loop-Fine rounds left (i + 1) (suc n) t' tame h')
        (tx_round va (rounds i) t) refl (tx_round-Fine n (rounds i) t (tame i).0 (tame i).1 h)
    where
      later :
          (t' : Tx)
          → tx_round va (rounds i) t ≡ ok (next t')
          → Spoilt rounds (i + 1) t'
          → Spoilt rounds i t
      later t' e s = record {
        at = s.at;
        then_tx = s.then_tx;
        reached = after i s.at t t' s.then_tx e s.reached;
        corrupted = s.corrupted;
      }

      settle :
          ((t' : Tx)
            → Fine (suc n) t'
            → Safe
                (Spoilt rounds (i + 1) t')
                (FineEnd (suc n + left))
                (tx_loop va rounds left (i + 1) t'))
          → (o : Outcome After) → tx_round va (rounds i) t ≡ o
          → Safe (Corrupted ((rounds i).writes t.ring) t.vq) (FineAfter n) o
          → Safe
              (Spoilt rounds i t)
              (FineEnd (n + suc left))
              (o >>= go_on (tx_loop va rounds left (i + 1)))
      settle again (ok (next t')) e h' =
          subst (λ m. Safe (Spoilt rounds i t) (FineEnd m) (tx_loop va rounds left (i + 1) t'))
            {x = suc n + left} (omega arith)
            (Safe-because (FineEnd (suc n + left)) (Spoilt rounds (i + 1) t') (Spoilt rounds i t)
              (tx_loop va rounds left (i + 1) t') (later t' e) (again t' h'))
      settle again (ok (flush t')) e (h', few) = (h', omega arith)
      settle again (ok (leave x t')) e h' = h'
      settle again (panic x) e (l, c) =
          (l, record { at = i; then_tx = t; reached = here i t; corrupted = c })

-- Packets that lie inside their arrays, and no more than the queue has room for.
abbrev pub Passed : Pktq → Flushed → Type 0
Passed q d = AllPackets d.passed × (length d.passed ≤ q.capacity - q.count)

finish-Passed :
    (n : ℕ) (q : Pktq) (a : After) → n ≤ q.capacity - q.count → FineEnd n a → Passed q (finish a)
finish-Passed n q (next t) h f = absurd f
finish-Passed n q (flush t) h (packets, few) = (packets, omega arith)
finish-Passed n q (leave e t) h f = (tt, omega arith)

module _ (va : ℕ → ℕ) where
  -- A call of `virtio_net_flush_tx` on a queue that is set up, where no descriptor of the normal world
  -- is of a gigabyte or more, the length of a descriptor is the same at both reads, and the pool
  -- hands out whole buffers. It returns, or panics in a round in which the normal world has corrupted
  -- the ring: the available index is too far ahead, the head outside the table, or the address of a
  -- descriptor one that `paddr_t` cannot hold or that changes between two reads. It copies nothing
  -- outside of a packet buffer. The packets that it passes to the router have 42 to 2046 bytes, which
  -- lie in their buffers, and are no more than the FEC's egress queue has room for.
  pub virtio_net_flush_tx-Passed :
      (driver_ok : Bool) (tx_burst : ℕ) (q : Pktq) (allocated : Bool) (rounds : ℕ → Round)
      (ring : Ring) (vq : Vqueue)
      → vq.vring_addr ≢ 0
      → Tame va rounds
      → Safe
          (Spoilt va rounds 0 (started ring vq))
          (Passed q)
          (virtio_net_flush_tx va driver_ok tx_burst (some q) allocated rounds ring vq)
  unfolding virtio_net_flush_tx router_in_burst_size vqueue_num_of_avail_buf
  virtio_net_flush_tx-Passed driver_ok tx_burst q allocated rounds ring vq up tame =
      elim (Bool-cases (not driver_ok)) [
        | inl e ↦ rw e (tt, omega arith)
        | inr e ↦ elim (Bool-cases (avail_count ring vq == 0)) [
          | inl n ↦ rw (e, set_up, n) (tt, omega arith)
          | inr n ↦ elim (Bool-cases (ltb (q.capacity - q.count) 128)) [
            | inl few ↦ rw (e, set_up, n, few) (tt, omega arith)
            | inr few ↦ elim (Bool-cases allocated) [
              | inl m ↦
                  rw (e, set_up, n, few, m)
                    (Safe-bind {P = FineEnd (0 + burst)} (Spoilt va rounds 0 (started ring vq))
                      (Passed q) (tx_loop va rounds burst 0 (started ring vq)) _
                      (tx_loop-Fine va rounds burst 0 0 (started ring vq) tame
                        (record { packets = tt; few = omega arith; four = refl }))
                      (λ a h. finish-Passed (0 + burst) q a (omega (arith, room few)) h))
              | inr m ↦ rw (e, set_up, n, few, m) (tt, omega arith)
            ]
          ]
        ]
      ]
    where
      set_up : (vq.vring_addr == 0) ≡ false
      set_up = ground (arith, up)

      burst : ℕ
      burst = max (min (min tx_burst (q.capacity - q.count)) (avail_count ring vq)) 1

      room : ltb (q.capacity - q.count) 128 ≡ false → burst ≤ q.capacity - q.count
      room few = ground (arith, few)
