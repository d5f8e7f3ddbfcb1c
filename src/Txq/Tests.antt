-- ===== src/Txq/Tests.antt =====
-- A ring of four slots, with a packet in slot 3 that is being sent.
use trusted_gateway.Prelude.{
  ℕ, ◌+◌, ◌≤◌, ◌≡◌, ◌≢◌, ◌⊎◌, Bool, true, false, [], ◌∷◌, Option, none, some, Ensures, arith,
  if◌then◌else◌, ◌==◌,
}
use trusted_gateway.Txq.Ring.{Txq, Skb, fec_xmit_handler, fec_txq}
use trusted_gateway.Txq.Slots.{IsValid}
use trusted_gateway.Txq.Conserve.{Kept, fec_txq-Kept}
use trusted_gateway.Txq.Burst.{Handled, fec_xmit_handler-Handled}

abbrev slots : ℕ → Option ℕ
slots i = if i == 3 then some 30 else none

abbrev ring : Txq
ring = record {
  ring_size = 4;
  cur = 0;
  pending_tx = 3;
  bd = λ i. record {
    tx_ready = i == 3;
    tx_intr = i == 3;
    tx_last = i == 3;
    sc_wrap = i == 3;
    bufaddr = 0;
    datlen = 0;
  };
  tx_skbuff = slots;
  tx_stop_threshold = 1;
  tx_wake_threshold = 2;
  stopped = false;
  wakes = 0;
  freed = [];
}

ring-IsValid : IsValid ring
ring-IsValid = record {
  cur_in = omega arith;
  pending_in = omega arith;
  others_free = λ i low out. ground (arith, low, out);
}

abbrev packet : Skb
packet = record { id = 40; addr = 0x1000; headlen = 60; nr_frags = 0 }

abbrev unmapped : Skb
unmapped = record { id = 41; addr = 0; headlen = 60; nr_frags = 0 }

-- Two packets, the second of which has no physical address.
fec_xmit_handler-Handled_example :
    Ensures (Handled (packet ∷ unmapped ∷ []) ring) (fec_xmit_handler (packet ∷ unmapped ∷ []) ring)
fec_xmit_handler-Handled_example =
    fec_xmit_handler-Handled (packet ∷ unmapped ∷ []) ring ring-IsValid

-- The card has sent it.
abbrev done : ℕ → Bool
done i = false

fec_txq-Kept_example :
    let (m, (kicked, q')) = fec_txq done true 128 0 ring in
    Kept [] ring q'
    × (m ≤ 0 + 128)
    × (((m ≡ 0 + 128) × (kicked ≡ false))
        ⊎ ((q'.pending_tx ≡ q'.cur) × (kicked ≡ false))
        ⊎ ((q'.pending_tx ≢ q'.cur) × (done q'.pending_tx ≡ true) × (kicked ≡ false)))
fec_txq-Kept_example = fec_txq-Kept done true 128 0 ring ring-IsValid
