-- ===== src/Txq/Conserve.antt =====
-- The packets in the transmit ring: none is lost or doubled.
use trusted_gateway.Prelude.{
  ℕ, zero, suc, ◌+◌, ◌≤◌, ◌<◌, ◌≡◌, ◌≢◌, ◌⊎◌, inl, inr, refl, ap, ◌∙◌, Bool, true, false, not, List,
  [], ◌∷◌, Option, none, some, Ensures, Ensures-map, arith, ◌==◌, ==→eq, ◌!=◌, ltb, leb, count,
  count-append, Bool-cases,
}
use trusted_gateway.Txq.Ring.{
  Bufdesc, Txq, Skb, put, idle_bd, fec_enet_get_nextdesc, fec_enet_get_free_txdesc_num,
  fec_trigger_tx, free_skb, Netdev, tx_ok, tx_busy, fec_enet_txq_submit_skb, throttled,
  fec_enet_start_xmit, free_done, woken, complete_one, fec_txq,
}
use trusted_gateway.Txq.Slots.{hit, in_ring, total, in_flight, IsValid, put_ne, in_ring-put}

-- A step that takes the packets `own` in: each is in the ring afterwards, or in the pool.
pub record Kept (own : List ℕ) (q q' : Txq) : Type 0 where
  pub valid : IsValid q'
  pub same_size : q'.ring_size ≡ q.ring_size
  pub balance : (x : ℕ) → total q' x ≡ total q x + count x own

free_skb-Kept : (id : ℕ) (q : Txq) → IsValid q → Kept (id ∷ []) q (free_skb id q)
free_skb-Kept id q v = record {
  valid = record { cur_in = v.cur_in; pending_in = v.pending_in; others_free = v.others_free };
  same_size = refl;
  balance = λ x. omega (arith, count-append x (id ∷ []) q.freed);
}

trigger-Kept :
    (b : _) (id : ℕ) (q : Txq)
    → IsValid q
    → ltb (fec_enet_get_free_txdesc_num q) 1 ≡ false
    → Kept (id ∷ []) q (fec_trigger_tx b q.cur (fec_enet_get_nextdesc q q.cur) id q.cur q)
unfolding fec_trigger_tx fec_enet_get_nextdesc fec_enet_get_free_txdesc_num
trigger-Kept b id q v room = record {
  valid = record {
    cur_in = ground (arith, v.cur_in);
    pending_in = v.pending_in;
    others_free = λ i low out. others i low out;
  };
  same_size = refl;
  balance = λ x. omega (
    arith,
    in_ring-put q.ring_size q.tx_skbuff q.cur (some id) x v.cur_in,
    ap (λ s. hit s x) (v.others_free q.cur v.cur_in at_cur),
  );
}
  where
    at_cur : in_flight q q.cur ≡ false
    at_cur = ground arith

    others :
        (i : ℕ)
        → i < q.ring_size
        → in_flight (fec_trigger_tx b q.cur (fec_enet_get_nextdesc q q.cur) id q.cur q) i ≡ false
        → put q.tx_skbuff q.cur (some id) i ≡ none
    others i low out = elim (Bool-cases (q.cur == i)) [
      | inl e ↦ absurd (ground (arith, e, out, low, room, v.pending_in, v.cur_in))
      | inr e ↦
          put_ne q.tx_skbuff q.cur i (some id) e
          ∙ v.others_free i low (ground (arith, e, out, low, room, v.pending_in, v.cur_in))
    ]

Kept-after : {own : List ℕ} {q q' q'' : Txq} → Kept own q q' → Kept [] q' q'' → Kept own q q''
Kept-after k l = record {
  valid = l.valid;
  same_size = l.same_size ∙ k.same_size;
  balance = λ x. omega (arith, k.balance x, l.balance x);
}

pub Kept-refl : (q : Txq) → IsValid q → Kept [] q q
Kept-refl q v = record { valid = v; same_size = refl; balance = λ x. omega arith }

-- What a packet is handed to the driver for: it is in the ring or back in the pool if the driver has
-- taken it, and is still the caller's, with no change, if the ring is full.
abbrev pub Sent : Skb → Txq → Netdev × Txq → Type 0
Sent skb q (tx_ok, q') = Kept (skb.id ∷ []) q q'
Sent skb q (tx_busy, q') = q' ≡ q

submit-Sent :
    (skb : Skb) (q : Txq) → IsValid q → Ensures (Sent skb q) (fec_enet_txq_submit_skb skb q)
unfolding fec_enet_txq_submit_skb
submit-Sent skb q v = elim (Bool-cases (ltb (fec_enet_get_free_txdesc_num q) 1)) [
  | inl e ↦ rw e refl
  | inr e ↦ elim (Bool-cases (skb.addr == 0)) [
    | inl a ↦ rw (e, a) (free_skb-Kept skb.id q v)
    | inr a ↦ elim (Bool-cases (skb.nr_frags != 0)) [
      | inl f ↦ rw (e, a, f) tt
      | inr f ↦ rw (e, a, f) (trigger-Kept _ skb.id q v e)
    ]
  ]
]

throttled-Sent : (skb : Skb) (q : Txq) (r : Netdev × Txq) → Sent skb q r → Sent skb q (throttled r)
throttled-Sent skb q (tx_busy, q') h = h
throttled-Sent skb q (tx_ok, q') k =
    elim (Bool-cases (leb (fec_enet_get_free_txdesc_num q') q'.tx_stop_threshold)) [
      | inl e ↦ rw e (record {
        valid = record {
          cur_in = k.valid.cur_in;
          pending_in = k.valid.pending_in;
          others_free = k.valid.others_free;
        };
        same_size = k.same_size;
        balance = k.balance;
      })
      | inr e ↦ rw e k
    ]

-- A call of `fec_enet_start_xmit` on a valid ring that returns: if the answer is NETDEV_TX_OK, the
-- packet is in the ring or back in the pool, once, and every other packet is where it was, as often;
-- if it is NETDEV_TX_BUSY, nothing has changed. The ring stays valid: slots that the card may not be
-- sending from are empty.
pub fec_enet_start_xmit-Sent :
    (skb : Skb) (q : Txq) → IsValid q → Ensures (Sent skb q) (fec_enet_start_xmit skb q)
unfolding fec_enet_start_xmit
fec_enet_start_xmit-Sent skb q v =
    Ensures-map (Sent skb q) (fec_enet_txq_submit_skb skb q) throttled (submit-Sent skb q v)
      (throttled-Sent skb q)

-- The descriptor at `pending_tx`, emptied.
abbrev emptied : Txq → (ℕ → Bufdesc) → Txq
emptied q b = record q {
  bd = b;
  tx_skbuff = put q.tx_skbuff q.pending_tx none;
  pending_tx = fec_enet_get_nextdesc q q.pending_tx;
}

emptied-IsValid :
    (q : Txq) (b : ℕ → Bufdesc)
    → IsValid q
    → (q.pending_tx == q.cur) ≡ false
    → IsValid (emptied q b)
unfolding fec_enet_get_nextdesc
emptied-IsValid q b v some_left = record {
  cur_in = v.cur_in;
  pending_in = ground (arith, v.pending_in);
  others_free = λ i low out. elim (Bool-cases (q.pending_tx == i)) [
    | inl e ↦ rw e refl
    | inr e ↦
        put_ne q.tx_skbuff q.pending_tx i none e
        ∙ v.others_free i low (ground (arith, e, out, low, some_left, v.pending_in, v.cur_in))
  ];
}

emptied-Kept :
    (q : Txq) (b : ℕ → Bufdesc)
    → IsValid q
    → (q.pending_tx == q.cur) ≡ false
    → Kept [] q (free_done (q.tx_skbuff q.pending_tx) (emptied q b))
emptied-Kept q b v some_left = settle (q.tx_skbuff q.pending_tx) refl
  where
    v' : IsValid (emptied q b)
    v' = emptied-IsValid q b v some_left

    out :
        (x : ℕ)
        → in_ring q.ring_size (put q.tx_skbuff q.pending_tx none) x
            + hit (q.tx_skbuff q.pending_tx) x
          ≡ in_ring q.ring_size q.tx_skbuff x + 0
    out x = in_ring-put q.ring_size q.tx_skbuff q.pending_tx none x v.pending_in

    settle : (o : Option ℕ) → q.tx_skbuff q.pending_tx ≡ o → Kept [] q (free_done o (emptied q b))
    settle none e = record {
      valid = v';
      same_size = refl;
      balance = λ x. omega (arith, out x, ap (λ s. hit s x) e);
    }
    settle (some id) e = record {
      valid = record {
        cur_in = v'.cur_in;
        pending_in = v'.pending_in;
        others_free = v'.others_free;
      };
      same_size = refl;
      balance = λ x. omega (arith, out x, ap (λ s. hit s x) e, count-append x (id ∷ []) q.freed);
    }

woken-Kept : (q : Txq) → IsValid q → Kept [] q (woken q)
unfolding woken
woken-Kept q v = elim (Bool-cases q.stopped) [
  | inr e ↦ simp e (Kept-refl q v)
  | inl e ↦ elim (Bool-cases (leb q.tx_wake_threshold (fec_enet_get_free_txdesc_num q))) [
    | inr t ↦ simp (e, t) (Kept-refl q v)
    | inl t ↦
        simp (e, t)
          (record {
            valid = record {
              cur_in = v.cur_in;
              pending_in = v.pending_in;
              others_free = v.others_free;
            };
            same_size = refl;
            balance = λ x. omega arith;
          })
  ]
]

complete_one-Kept :
    (q : Txq) → IsValid q → (q.pending_tx == q.cur) ≡ false → Kept [] q (complete_one q)
unfolding complete_one
complete_one-Kept q v some_left =
    let k = emptied-Kept q (put q.bd q.pending_tx (idle_bd q q.pending_tx)) v some_left in
    Kept-after k (woken-Kept _ k.valid)

-- `fec_txq` keeps a valid ring valid, and each packet is in the ring or back in the pool afterwards,
-- as often as before: what it takes out of the ring it frees, once. It takes no more descriptors than
-- its budget. It stops when the budget is used up or the ring is empty, and then does not kick the
-- card, or at a descriptor that the card has not sent, and then kicks the card exactly if
-- `reg_desc_active` was read as 0.
pub fec_txq-Kept :
    (busy : ℕ → Bool) (active : Bool) (budget n : ℕ) (q : Txq)
    → IsValid q
    → let (m, (kicked, q')) = fec_txq busy active budget n q in
      Kept [] q q'
      × (m ≤ n + budget)
      × (((m ≡ n + budget) × (kicked ≡ false))
          ⊎ ((q'.pending_tx ≡ q'.cur) × (kicked ≡ false))
          ⊎ ((q'.pending_tx ≢ q'.cur) × (busy q'.pending_tx ≡ true) × (kicked ≡ not active)))
unfolding fec_txq
fec_txq-Kept busy active zero n q v = (Kept-refl q v, omega arith, inl (omega arith, refl))
fec_txq-Kept busy active (suc budget) n q v = elim (Bool-cases (q.pending_tx == q.cur)) [
  | inl e ↦ rw e (Kept-refl q v, omega arith, inr (inl (==→eq q.pending_tx q.cur e, refl)))
  | inr e ↦ elim (Bool-cases (busy q.pending_tx)) [
    | inl b ↦ rw (e, b) (Kept-refl q v, omega arith, inr (inr (ground (arith, e), b, refl)))
    | inr b ↦
        let k = complete_one-Kept q v e in
        let (l, few, why) = fec_txq-Kept busy active budget (n + 1) (complete_one q) k.valid in
        rw (e, b)
          (
            Kept-after k l,
            omega (arith, few),
            elim why [
              | inl (spent, quiet) ↦ inl (omega (arith, spent), quiet)
              | inr stopped ↦ inr stopped
            ],
          )
  ]
]
