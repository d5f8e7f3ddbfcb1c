-- ===== src/Txq/Burst.antt =====
-- What becomes of a burst that the router hands to the card.
use trusted_gateway.Prelude.{
  ℕ, ◌≤◌, sym, subst, ◌∙◌, List, [], ◌∷◌, ◌++◌, Ensures, Ensures-bind_with, Ensures-map, arith,
  length, take, count-append,
}
use trusted_gateway.Txq.Ring.{
  Txq, Skb, Netdev, tx_ok, tx_busy, fec_enet_start_xmit, counted, fec_xmit_handler,
}
use trusted_gateway.Txq.Slots.{IsValid}
use trusted_gateway.Txq.Conserve.{Kept, Kept-refl, Sent, fec_enet_start_xmit-Sent}

abbrev pub skb_ids : List Skb → List ℕ
skb_ids [] = []
skb_ids (s ∷ ss) = s.id ∷ skb_ids ss

Kept-append :
    {own own' : List ℕ} {q q' q'' : Txq}
    → Kept own q q'
    → Kept own' q' q''
    → Kept (own ++ own') q q''
Kept-append {own} {own'} k l = record {
  valid = l.valid;
  same_size = l.same_size ∙ k.same_size;
  balance = λ x. omega (arith, k.balance x, l.balance x, count-append x own own');
}

-- The driver has taken the first `n` packets.
abbrev pub Handled : List Skb → Txq → ℕ × Txq → Type 0
Handled skbs q (n, q') = (n ≤ length skbs) × Kept (skb_ids (take n skbs)) q q'

-- A call of `fec_xmit_handler` on a valid ring that returns has taken as many packets as it answers,
-- the first of the burst: each of these is in the ring or back in the pool, once, and the driver
-- holds none of the others, so that the router may take exactly the first ones out of its queue.
pub fec_xmit_handler-Handled :
    (skbs : List Skb) (q : Txq) → IsValid q → Ensures (Handled skbs q) (fec_xmit_handler skbs q)
unfolding fec_xmit_handler
fec_xmit_handler-Handled [] q v = (omega arith, Kept-refl q v)
fec_xmit_handler-Handled (s ∷ ss) q v =
    Ensures-bind_with (Handled (s ∷ ss) q) (fec_enet_start_xmit s q) _
      (fec_enet_start_xmit-Sent s q v)
      λ (r, q') h. settle r q' h (λ w. fec_xmit_handler-Handled ss q' w)
  where
    settle :
        (r : Netdev) (q' : Txq)
        → Sent s q (r, q')
        → (IsValid q' → Ensures (Handled ss q') (fec_xmit_handler ss q'))
        → Ensures (Handled (s ∷ ss) q) (counted r q' (fec_xmit_handler ss q'))
    settle tx_busy q' same again = (omega arith, subst (Kept [] q) (sym same) (Kept-refl q v))
    settle tx_ok q' k again =
        Ensures-map (Handled (s ∷ ss) q) (fec_xmit_handler ss q') _ (again k.valid)
          λ (n, q'') (few, l). (omega (arith, few), Kept-append k l)
