-- ===== src/Pktq/Burst.antt =====
-- The burst that `router_pktq_tx` hands to a driver.
use trusted_gateway.Prelude.{
  ℕ, zero, suc, ◌+◌, ◌≤◌, ◌<◌, ◌≡◌, refl, ap, ◌∙◌, sym, ◌⊎◌, List, [], ◌∷◌, arith, get_or, take,
  get_or,
}
use native.Mathlib.Nat.{mod-eq_of_lt}
use mathlib.Core.Path.{ap₂}
use trusted_gateway.Pktq.Ops.{Pktq, contig_bufs, is_empty}
use trusted_gateway.Pktq.Contents.{items, contents, IsValid}

-- `pkt[next_read], pkt[next_read + 1], …`: `n` slots of the array in a row.
abbrev pub slots_from : List ℕ → ℕ → ℕ → List ℕ
slots_from pkt r zero = []
slots_from pkt r (suc n) = get_or pkt r 0 ∷ slots_from pkt (r + 1) n

contig-items :
    (pkt : List ℕ) (cap r k n m : ℕ)
    → r + k + n ≤ cap
    → n ≤ m
    → take n (items pkt cap r k m) ≡ slots_from pkt (r + k) n
contig-items pkt cap r k zero m h l = refl
contig-items pkt cap r k (suc n) zero h l = absurd (omega arith)
contig-items pkt cap r k (suc n) (suc m) h l =
    ap₂ (λ j xs. get_or pkt j 0 ∷ xs) (mod-eq_of_lt (omega arith))
      (contig-items pkt cap r (suc k) n m (omega arith) (omega arith)
        ∙ ap (λ j. slots_from pkt j n) (omega arith))

pub contig_bufs_bounds :
    (q : Pktq)
    → IsValid q
    → (contig_bufs q ≤ q.count)
      × (q.next_read + contig_bufs q ≤ q.capacity)
      × ((q.count ≡ 0) ⊎ (0 < contig_bufs q))
unfolding contig_bufs is_empty
contig_bufs_bounds q v = ground arith

-- In a valid queue the buffers that `bstgw_pktq_locked_contig_bufs` counts lie in the array without
-- a wrap-around, are the oldest in their order, and are none only if the queue is empty.
pub contig_bufs_lem :
    (q : Pktq)
    → IsValid q
    → (q.next_read + contig_bufs q ≤ q.capacity)
      × (slots_from q.pkt q.next_read (contig_bufs q) ≡ take (contig_bufs q) (contents q))
      × ((q.count ≡ 0) ⊎ (0 < contig_bufs q))
contig_bufs_lem q v =
    let (few, fits, some_left) = contig_bufs_bounds q v in
    (
      fits,
      ap (λ j. slots_from q.pkt j (contig_bufs q)) {x = q.next_read} (omega arith)
          ∙ sym (
              contig-items q.pkt q.capacity q.next_read 0 (contig_bufs q) q.count (omega arith)
                few),
      some_left,
    )
