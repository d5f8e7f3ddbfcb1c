-- ===== src/Virtio/Queues.antt =====
-- The device of virtio.c keeps its queues within their bounds.
use trusted_gateway.Prelude.{
  ℕ, ◌%◌, ◌≤◌, ◌<◌, ◌≡◌, ◌≢◌, inl, inr, sym, subst, Bool, true, false, not, ◌&&◌, ◌||◌, Outcome, ok,
  panic, Returns, ◌==◌, ltb, arith, Bool-cases, Outcome-cases,
}
use trusted_gateway.Vqueue.State.{Vqueue, Status}
use trusted_gateway.Vqueue.Setup.{
  Mmu, vring_size, setup_rings, vqueue_vring_setup, vqueue_vring_teardown,
}
use trusted_gateway.Virtio.State.{Vdev, at, u32_mod, vq_max_size}
use trusted_gateway.Virtio.Net.{virtio_net_set_status, virtio_net_reset, virtio_net_set_config}
use trusted_gateway.Virtio.Device.{
  virtio_notify_vector, virtio_set_status, reset_queue, reset_queues, virtio_reset,
  virtio_config_write, out_of_region, valid_width, virtio_queue_set_rings, virtio_queue_set_num,
  virtio_queue_notify,
}

-- A queue: its size within the bounds, also the one that a reset brings back, and no pointer into a
-- vring that is not there.
pub record SafeQueue (vq : Vqueue) : Type 0 where
  pub some_slots : 0 < vq.num
  pub few_slots : vq.num ≤ vq_max_size
  pub some_default : 0 < vq.num_default
  pub few_default : vq.num_default ≤ vq_max_size
  pub no_desc : vq.vring_addr ≡ 0 → vq.desc_ptr ≡ 0
  pub no_avail : vq.vring_addr ≡ 0 → vq.avail_ptr ≡ 0
  pub no_used : vq.vring_addr ≡ 0 → vq.used_ptr ≡ 0

pub record SafeDevice (d : Vdev) : Type 0 where
  pub queue_in : d.queue_sel < 2
  pub queues : (i : ℕ) → SafeQueue (d.vq i)

at-SafeQueue :
    (f : ℕ → Vqueue) (n : ℕ) (vq : Vqueue) (i : ℕ)
    → SafeQueue (f i)
    → SafeQueue vq
    → SafeQueue (at f n vq i)
at-SafeQueue f n vq i s t = elim (Bool-cases (n == i)) [ inl e ↦ rw e t | inr e ↦ rw e s ]

-- A queue's set-up returns unless an address is NULL, and keeps the queue safe.
setup_rings-SafeQueue :
    (va : ℕ → ℕ) (vq : Vqueue) (vaddr a u : ℕ)
    → vaddr ≢ 0
    → SafeQueue vq
    → SafeQueue (setup_rings va vq vaddr a u).1
unfolding setup_rings
setup_rings-SafeQueue va vq vaddr a u h s = ground arith

reset_queue-SafeQueue : (vq : Vqueue) → SafeQueue vq → Returns SafeQueue (reset_queue vq)
unfolding reset_queue vqueue_vring_teardown
reset_queue-SafeQueue vq s = ground arith

-- A device that differs from a safe one in neither its queues nor the selected one.
abbrev pub Alike : Vdev → Vdev → Type 0
Alike d d' = (d'.vq ≡ d.vq) × (d'.queue_sel ≡ d.queue_sel)

pub Alike-SafeDevice : (d d' : Vdev) → Alike d d' → SafeDevice d → SafeDevice d'
Alike-SafeDevice d d' (q, e) s = record {
  queue_in = omega (arith, s.queue_in);
  queues = λ i. subst (λ (f : ℕ → Vqueue). SafeQueue (f i)) (sym q) (s.queues i);
}

pub set_status-Alike : (d : Vdev) (v : ℕ) → Alike d (virtio_set_status d v)
unfolding virtio_set_status virtio_net_set_status
set_status-Alike d v = ground arith

pub notify_vector-Alike : (d : Vdev) → Alike d (virtio_notify_vector d)
unfolding virtio_notify_vector
notify_vector-Alike d = ground arith

pub notify-Alike : (d : Vdev) (n : ℕ) → Alike d (virtio_queue_notify d n)
unfolding virtio_queue_notify
notify-Alike d n = ground arith

pub set_num-SafeDevice :
    (d : Vdev) (n num : ℕ) → SafeDevice d → SafeDevice (virtio_queue_set_num d n num)
unfolding virtio_queue_set_num
set_num-SafeDevice d n num s = elim (Bool-cases refused) [
  | inl e ↦ rw e s
  | inr e ↦ rw e (record {
    queue_in = s.queue_in;
    queues = λ i.
        at-SafeQueue d.vq n (record (d.vq n) { num = num }) i (s.queues i) (sized e (s.queues n));
  })
]
  where
    refused : Bool
    refused =
        ((num == 0) && not ((d.vq n).num == 0))
        || (not (num == 0) && ((d.vq n).num == 0))
        || ltb vq_max_size num

    sized : refused ≡ false → SafeQueue (d.vq n) → SafeQueue (record (d.vq n) { num = num })
    sized e q = ground arith

reset_queues-SafeDevice : (d : Vdev) → SafeDevice d → Returns SafeDevice (reset_queues d)
unfolding reset_queues
reset_queues-SafeDevice d s = elim (Outcome-cases (reset_queue (d.vq 0))) [
  | inr (x, e) ↦ absurd (subst (Returns SafeQueue) e (reset_queue-SafeQueue (d.vq 0) (s.queues 0)))
  | inl (q0, e) ↦ elim (Outcome-cases (reset_queue (d.vq 1))) [
    | inr (x, e1) ↦
        absurd (subst (Returns SafeQueue) e1 (reset_queue-SafeQueue (d.vq 1) (s.queues 1)))
    | inl (q1, e1) ↦ rw e (
        rw e1 (record {
          queue_in = s.queue_in;
          queues = λ i.
              at-SafeQueue (at d.vq 0 q0) 1 q1 i
                (at-SafeQueue d.vq 0 q0 i (s.queues i)
                  (subst (Returns SafeQueue) e (reset_queue-SafeQueue (d.vq 0) (s.queues 0))))
                (subst (Returns SafeQueue) e1 (reset_queue-SafeQueue (d.vq 1) (s.queues 1)));
        }))
  ]
]

pub reset-SafeDevice : (d : Vdev) → SafeDevice d → Returns SafeDevice (virtio_reset d)
unfolding virtio_reset virtio_net_reset
reset-SafeDevice d s = reset_queues-SafeDevice (virtio_notify_vector cleared) (
    Alike-SafeDevice cleared (virtio_notify_vector cleared) (notify_vector-Alike cleared) (record {
      queue_in = omega arith;
      queues = (Alike-SafeDevice d (virtio_set_status d 0) (set_status-Alike d 0) s).queues;
    }))
  where
    cleared : Vdev
    cleared = record (virtio_set_status d 0) {
      started = false;
      guest_features = 0;
      queue_sel = 0;
      status = 0;
      isr = 0;
    }

abbrev pub GuardedDevice : Bool → Outcome Vdev → Type 0
GuardedDevice bad (ok d) = (bad ≡ false) × SafeDevice d
GuardedDevice bad (panic e) = bad ≡ true

abbrev GuardedSetup : Bool → Outcome (Status × Vqueue) → Type 0
GuardedSetup bad (ok r) = (bad ≡ false) × SafeQueue r.1
GuardedSetup bad (panic e) = bad ≡ true

setup-Guarded :
    (mmu : Mmu) (vq : Vqueue) (a b c : ℕ)
    → SafeQueue vq
    → GuardedSetup (a == 0 || b == 0 || c == 0) (vqueue_vring_setup mmu vq a b c)
unfolding vqueue_vring_setup
setup-Guarded mmu vq a b c s =
    let sized = record vq { vring_sz = vring_size vq.num vq.vring_align } in
    ground (
      arith,
      setup_rings-SafeQueue mmu.va_before sized (mmu.va_before a) b c,
      setup_rings-SafeQueue mmu.va_after sized (mmu.va_after a) b c,
    )

pub set_rings-Guarded :
    (mmu : Mmu) (d : Vdev) (n a b c : ℕ)
    → SafeDevice d
    → GuardedDevice
        (a % u32_mod == 0 || b % u32_mod == 0 || c % u32_mod == 0)
        (virtio_queue_set_rings mmu d n a b c)
unfolding virtio_queue_set_rings
set_rings-Guarded mmu d n a b c s = elim (Outcome-cases call) [
  | inl (r, e) ↦
      let (fine, sq) = subst (GuardedSetup bad) e kept in
      rw there (
        rw e (
          fine,
          record { queue_in = s.queue_in; queues = λ i. at-SafeQueue d.vq n r.1 i (s.queues i) sq },
        ))
  | inr (x, e) ↦ rw there (rw e (subst (GuardedSetup bad) e kept))
]
  where
    bad : Bool
    bad = a % u32_mod == 0 || b % u32_mod == 0 || c % u32_mod == 0

    call : Outcome (Status × Vqueue)
    call = vqueue_vring_setup mmu (d.vq n) (a % u32_mod) (b % u32_mod) (c % u32_mod)

    there : ((d.vq n).num == 0) ≡ false
    there = ground (arith, (s.queues n).some_slots)

    kept : GuardedSetup bad call
    kept = setup-Guarded mmu (d.vq n) (a % u32_mod) (b % u32_mod) (c % u32_mod) (s.queues n)

pub config_write-Guarded :
    (d : Vdev) (o v size : ℕ)
    → SafeDevice d
    → GuardedDevice
        (not (out_of_region d o size) && not (valid_width size))
        (virtio_config_write d o v size)
unfolding virtio_config_write virtio_net_set_config
config_write-Guarded d o v size s = ground arith
