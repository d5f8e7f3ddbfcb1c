-- ===== src/Router/Lost.antt =====
-- What the eight bits of `egr_idx` cannot mark.
use trusted_gateway.Prelude.{
  ℕ, zero, suc, ◌+◌, ◌%◌, ◌^◌, ◌≤◌, ◌≡◌, refl, ap, ◌∙◌, true, [], ◌∷◌, some, ok, arith, bit_and,
  bit_or,
}
use Prim.Native.Nat.{bit_or-bitwise, bit_and-bitwise}
use trusted_gateway.Router.Net.{Pkt, Outside, Net, ifnet_dev_count}
use trusted_gateway.Router.Input.{process_packet, Batch, route_all, enqueue_all, router_if_input}

pow_high : (i : ℕ) → 8 ≤ i → 2 ^ i % 256 ≡ 0
pow_high (suc (suc (suc (suc (suc (suc (suc (suc i)))))))) h = omega arith
pow_high zero h = absurd (omega arith)
pow_high (suc zero) h = absurd (omega arith)
pow_high (suc (suc zero)) h = absurd (omega arith)
pow_high (suc (suc (suc zero))) h = absurd (omega arith)
pow_high (suc (suc (suc (suc zero)))) h = absurd (omega arith)
pow_high (suc (suc (suc (suc (suc zero))))) h = absurd (omega arith)
pow_high (suc (suc (suc (suc (suc (suc zero)))))) h = absurd (omega arith)
pow_high (suc (suc (suc (suc (suc (suc (suc zero))))))) h = absurd (omega arith)

no_bits : (x : ℕ) → bit_and 0 x ≡ 0
no_bits x = omega (arith, bit_and-bitwise 0 x)

bit_or_zero : (x : ℕ) → bit_or 0 x ≡ x
bit_or_zero x = omega (arith, bit_or-bitwise 0 x)

module _ {M : Type 0} (out : Outside M) where
  none_marked :
      (in_idx : ℕ) (b : Batch) (left j : ℕ) (s : Net M)
      → b.egr_idx ≡ 0
      → enqueue_all out in_idx b left j s ≡ s
  unfolding enqueue_all
  none_marked in_idx b zero j s e = refl
  none_marked in_idx b (suc left) j s e =
      rw (ap (λ k. bit_and k (2 ^ j)) e ∙ no_bits (2 ^ j)) (none_marked in_idx b left (j + 1) s e)

  -- A packet that is routed to an interface of index 8 or more, alone in its burst: the call ends with
  -- the state that the routing left, so that the packet is neither enqueued nor given back.
  pub router_if_input-lost :
      (in_idx : ℕ) (m m' : Pkt) (s s' : Net M)
      → process_packet out in_idx m s ≡ ok (some m', s')
      → 8 ≤ m'.out_if_idx
      → router_if_input out true in_idx (m ∷ []) s ≡ ok s'
  unfolding router_if_input route_all
  router_if_input-lost in_idx m m' s s' e high = rw e (
      ap (λ t. ok t)
        (none_marked in_idx _ (ifnet_dev_count s) 1 s'
          (ap (λ k. k % 256) (bit_or_zero (2 ^ m'.out_if_idx)) ∙ pow_high m'.out_if_idx high)))
