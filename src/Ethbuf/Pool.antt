-- ===== src/Ethbuf/Pool.antt =====
-- `ether_skb_pool` and the operations on it. A buffer is a number. `LIST_REMOVE` takes a buffer out of
-- the list that it is in. `malloc`'s answers are arguments.
use trusted_gateway.Prelude.{
  ℕ, ◌+◌, ◌-◌, List, [], ◌∷◌, Outcome, ok, panic, out_of_memory, if◌then◌else◌, ◌==◌, length,
}

pub record Pool : Type 0 where
  pub free_list : List ℕ
  pub inuse_list : List ℕ
  pub capacity : ℕ

unfoldable pub bstgw_ethpool_init : Pool
bstgw_ethpool_init = record { free_list = []; inuse_list = []; capacity = 0 }

abbrev pub without : ℕ → List ℕ → List ℕ
without x [] = []
without x (y ∷ ys) = if x == y then ys else y ∷ without x ys

abbrev pub list_remove : ℕ → Pool → Pool
list_remove eb p = record p {
  free_list = without eb p.free_list;
  inuse_list = without eb p.inuse_list;
}

-- The loop of `bstgw_ethpool_increase`, with the buffers that `bstgw_ethbuf_alloc_aligned` answers.
unfoldable pub insert_all : List ℕ → Pool → Pool
insert_all [] p = p
insert_all (eb ∷ ebs) p = insert_all ebs (record p { free_list = eb ∷ p.free_list })

unfoldable pub bstgw_ethpool_increase : List ℕ → Pool → Pool
unfolding insert_all
bstgw_ethpool_increase ebs p =
    let p' = insert_all ebs p in record p' { capacity = p'.capacity + length ebs }

unfoldable pub bstgw_ethpool_buf_alloc : Pool → Outcome (ℕ × Pool)
bstgw_ethpool_buf_alloc p = elim p.free_list [
  | [] ↦ panic out_of_memory
  | eb ∷ ebs ↦ ok (eb, record p { free_list = ebs; inuse_list = eb ∷ p.inuse_list })
]

unfoldable pub bstgw_ethpool_buf_free : ℕ → Pool → Pool
bstgw_ethpool_buf_free eb p =
    let p' = list_remove eb p in record p' { free_list = eb ∷ p'.free_list }

unfoldable pub bstgw_ethpool_buf_destroy : ℕ → Pool → Pool
bstgw_ethpool_buf_destroy eb p =
    let p' = list_remove eb p in record p' { capacity = p'.capacity - 1 }
