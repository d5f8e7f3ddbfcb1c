-- ===== src/Router/Tests.antt =====
-- The way out of a queue of four slots.
use trusted_gateway.Prelude.{ℕ, refl, true, false, List, [], ◌∷◌, Returns, take, arith}
use trusted_gateway.Pktq.Ops.{Pktq, contig_bufs, bulk_add_buff}
use trusted_gateway.Pktq.Contents.{IsValid}
use trusted_gateway.Router.Egress.{Ifnet, Xmit, sent, router_pktq_tx}
use trusted_gateway.Router.Flow.{Transmitted, router_pktq_tx-Transmitted}

abbrev wrapped : Pktq
wrapped = record {
  stopped = false;
  next_read = 2;
  next_write = 1;
  count = 3;
  capacity = 4;
  pkt = 30 ∷ 99 ∷ 10 ∷ 20 ∷ [];
}

wrapped-IsValid : IsValid wrapped
wrapped-IsValid = record {
  slots = refl;
  some_slots = omega arith;
  read_in = omega arith;
  bounded = omega arith;
  write_at = refl;
}

abbrev uplink : Ifnet
uplink = record { ifnet_idx = 2; is_external = true; queue = wrapped; freed = []; notified = 0 }

-- A driver that has room for one frame.
abbrev takes_one : List ℕ → Xmit
takes_one [] = sent 0
takes_one (p ∷ ps) = sent 1

router_pktq_tx-Transmitted_example :
    Returns
      (Transmitted takes_one (take (bulk_add_buff wrapped (40 ∷ [])).0 (40 ∷ [])) wrapped)
      (router_pktq_tx takes_one (40 ∷ []) uplink)
unfolding contig_bufs
router_pktq_tx-Transmitted_example =
    router_pktq_tx-Transmitted takes_one (40 ∷ []) uplink wrapped-IsValid (omega arith)
