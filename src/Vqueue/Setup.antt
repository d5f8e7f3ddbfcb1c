-- ===== src/Vqueue/Setup.antt =====
-- The life of a vring: `vqueue_init`, `vqueue_vring_setup` and `vqueue_vring_teardown`.
use trusted_gateway.Prelude.{
  ℕ, ◌+◌, ◌-◌, ◌*◌, Bool, ◌||◌, Outcome, ok, panic, bad_argument, if◌then◌else◌, ◌==◌, ◌!=◌,
  bit_and,
}
use trusted_gateway.Vqueue.State.{Vqueue, Status, no_error, failed, u32}

unfoldable pub vqueue_init : ℕ → ℕ → ℕ → Vqueue
vqueue_init id num align = record {
  id = id;
  num = num;
  num_default = num;
  desc_ptr = 0;
  avail_ptr = 0;
  used_ptr = 0;
  vring_addr = 0;
  vring_sz = 0;
  vring_align = align;
  last_avail_idx = 0;
}

-- `(x + align - 1) & ~(align - 1)` on 32 bits.
unfoldable pub align_up : ℕ → ℕ → ℕ
align_up align x = bit_and (u32 (x + align - 1)) (0x100000000 - align)

-- Descriptors have 16 bytes, ring entries 2, used elements 8.
unfoldable pub vring_size : ℕ → ℕ → ℕ
vring_size num align = u32 (align_up align (16 * num + 2 * (3 + num)) + 2 * 3 + 8 * num)

-- What the memory manager answers for physical addresses of the normal world, before and after the
-- call of `core_mmu_add_mapping`, and whether that call succeeds.
pub record Mmu : Type 0 where
  pub va_before : ℕ → ℕ
  pub va_after : ℕ → ℕ
  pub add_mapping : ℕ → ℕ → Bool

-- `check_ring_layout`: whether it reports an error.
abbrev layout_differs : (ℕ → ℕ) → ℕ → ℕ → Bool
layout_differs va pa ref_va = va pa == 0 || va pa != ref_va

abbrev pub avail_of : ℕ → ℕ → ℕ
avail_of num va = u32 (va + 16 * num)

-- `&avail->ring[num] + sizeof(__virtio16)`, aligned.
abbrev pub used_of : ℕ → ℕ → ℕ → ℕ
used_of num align va = align_up align (u32 (avail_of num va + 4 + 2 * num + 2))

-- The part of `vqueue_vring_setup` after the address is known.
unfoldable pub setup_rings : (ℕ → ℕ) → Vqueue → ℕ → ℕ → ℕ → Status × Vqueue
setup_rings va vq vaddr avail_pa used_pa =
    let avail = avail_of vq.num vaddr in
    let used = used_of vq.num vq.vring_align vaddr in
    if layout_differs va avail_pa avail || layout_differs va used_pa used
    then (failed, record vq { vring_addr = 0; desc_ptr = 0; avail_ptr = 0; used_ptr = 0 })
    else (
      no_error,
      record vq { vring_addr = vaddr; desc_ptr = vaddr; avail_ptr = avail; used_ptr = used },
    )

unfoldable pub round_page : ℕ → ℕ
round_page = align_up 0x1000

unfoldable pub vqueue_vring_setup : Mmu → Vqueue → ℕ → ℕ → ℕ → Outcome (Status × Vqueue)
unfolding setup_rings
vqueue_vring_setup mmu vq desc_pa avail_pa used_pa =
    let sized = record vq { vring_sz = vring_size vq.num vq.vring_align } in
    if desc_pa == 0 || avail_pa == 0 || used_pa == 0
    then panic bad_argument
    else (if mmu.va_before desc_pa != 0
        then ok (setup_rings mmu.va_before sized (mmu.va_before desc_pa) avail_pa used_pa)
        else (if mmu.add_mapping desc_pa (round_page sized.vring_sz)
            then (if mmu.va_after desc_pa == 0
                then ok (failed, sized)
                else ok (setup_rings mmu.va_after sized (mmu.va_after desc_pa) avail_pa used_pa))
            else ok (failed, sized)))

-- The pointers of a queue without a vring are NULL already; the code asserts it.
unfoldable pub vqueue_vring_teardown : Vqueue → Outcome Vqueue
vqueue_vring_teardown vq =
    let closed = record vq { vring_addr = 0; vring_sz = 0; last_avail_idx = 0 } in
    if vq.vring_addr != 0
    then ok (record closed { used_ptr = 0; avail_ptr = 0; desc_ptr = 0 })
    else (if vq.desc_ptr != 0 || vq.avail_ptr != 0 || vq.used_ptr != 0
        then panic bad_argument
        else ok closed)
