-- ===== src/Pktq/Tests.antt =====
-- The queue's theorems at a queue of four slots whose contents wrap around.
use trusted_gateway.Prelude.{◌≡◌, refl, false, [], ◌∷◌, ◌++◌, arith, take}
use trusted_gateway.Pktq.Ops.{Pktq, bulk_add_buff}
use trusted_gateway.Pktq.Contents.{IsValid, contents}
use trusted_gateway.Pktq.Refine.{bulk_add_buff_lem}

abbrev wrapped : Pktq
wrapped = record {
  stopped = false;
  next_read = 2;
  next_write = 1;
  count = 3;
  capacity = 4;
  pkt = 30 ∷ 99 ∷ 10 ∷ 20 ∷ [];
}

wrapped-IsValid : IsValid wrapped
wrapped-IsValid = record {
  slots = refl;
  some_slots = omega arith;
  read_in = omega arith;
  bounded = omega arith;
  write_at = refl;
}

wrapped-contents : contents wrapped ≡ 10 ∷ 20 ∷ 30 ∷ []
wrapped-contents = refl

-- Two buffers for the one slot that is left.
bulk_add_buff_lem_example :
    let (n, q') = bulk_add_buff wrapped (40 ∷ 50 ∷ []) in
    (n ≡ 1) × (contents q' ≡ contents wrapped ++ take n (40 ∷ 50 ∷ [])) × IsValid q'
bulk_add_buff_lem_example = bulk_add_buff_lem wrapped (40 ∷ 50 ∷ []) wrapped-IsValid
