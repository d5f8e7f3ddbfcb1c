-- ===== src/Ethbuf/Tests.antt =====
-- The pool and the buffers at small examples.
use trusted_gateway.Prelude.{
  ◌≡◌, ◌≤◌, ◌<◌, ◌⊎◌, refl, true, false, [], ◌∷◌, Returns, drop, arith, panic, out_of_memory, ◌≢◌,
}
use trusted_gateway.Ethbuf.Pool.{
  Pool, bstgw_ethpool_init, bstgw_ethpool_increase, insert_all, bstgw_ethpool_buf_alloc,
}
use trusted_gateway.Ethbuf.Owners.{
  Inv, Owned, call, increase, alloc, Reach, start, next, bstgw_ethpool_buf_alloc-Owned,
}
use trusted_gateway.Ethbuf.Data.{
  Ethbuf, payload, bstgw_ethbuf_precut, bstgw_ethbuf_prepend, bstgw_ethbuf_linearize,
}
use trusted_gateway.Ethbuf.Bytes.{
  IsValid, Linearized, bstgw_ethbuf_linearize-Linearized, prepend-precut,
}

-- Two buffers, of which one is handed out.
abbrev one_buffer : Pool
one_buffer = record { free_list = 7 ∷ []; inuse_list = []; capacity = 1 }

abbrev two_buffers : Pool
two_buffers = record { free_list = 8 ∷ 7 ∷ []; inuse_list = []; capacity = 2 }

abbrev one_out : Pool
one_out = record { free_list = 7 ∷ []; inuse_list = 8 ∷ []; capacity = 2 }

one_buffer-Reach : Reach one_buffer
unfolding call bstgw_ethpool_init bstgw_ethpool_increase insert_all
one_buffer-Reach = next (increase 7) start (refl, refl) refl

two_buffers-Reach : Reach two_buffers
unfolding call bstgw_ethpool_increase insert_all
two_buffers-Reach = next (increase 8) one_buffer-Reach (refl, refl) refl

one_out-Reach : Reach one_out
unfolding call bstgw_ethpool_buf_alloc
one_out-Reach = next alloc two_buffers-Reach tt refl

bstgw_ethpool_buf_alloc-Owned_example :
    Inv one_out
    × (((one_out.free_list ≡ []) × (bstgw_ethpool_buf_alloc one_out ≡ panic out_of_memory))
        ⊎ ((one_out.free_list ≢ []) × Returns (Owned one_out) (bstgw_ethpool_buf_alloc one_out)))
bstgw_ethpool_buf_alloc-Owned_example = bstgw_ethpool_buf_alloc-Owned one_out-Reach

abbrev head_buffer : Ethbuf
head_buffer = record { data_len = 2; data_off = 1; buf_cap = 5; buf = 0 ∷ 10 ∷ 11 ∷ 0 ∷ 0 ∷ [] }

abbrev second_buffer : Ethbuf
second_buffer = record { data_len = 1; data_off = 0; buf_cap = 1; buf = 12 ∷ [] }

head_buffer-IsValid : IsValid head_buffer
head_buffer-IsValid = record { sized = refl; inside = omega arith; in_u32 = omega arith }

second_buffer-IsValid : IsValid second_buffer
second_buffer-IsValid = record { sized = refl; inside = omega arith; in_u32 = omega arith }

bstgw_ethbuf_linearize-Linearized_example :
    Returns
      (Linearized head_buffer (second_buffer ∷ []))
      (bstgw_ethbuf_linearize head_buffer (second_buffer ∷ []))
bstgw_ethbuf_linearize-Linearized_example =
    bstgw_ethbuf_linearize-Linearized head_buffer (second_buffer ∷ []) head_buffer-IsValid
      (omega arith) (second_buffer-IsValid, tt) (omega arith)

prepend-precut_example :
    let (fine, eb') = bstgw_ethbuf_precut head_buffer 1 in
    ((fine ≡ true)
      × (1 ≤ 2)
      × (payload eb' ≡ drop 1 (payload head_buffer))
      × (bstgw_ethbuf_prepend eb' 1 ≡ (true, head_buffer)))
    ⊎ ((fine ≡ false) × (2 < 1) × (eb' ≡ head_buffer))
prepend-precut_example = prepend-precut head_buffer 1
