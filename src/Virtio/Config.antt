-- ===== src/Virtio/Config.antt =====
-- Runs of accesses by the driver, and what it reads of the configuration.
use trusted_gateway.Prelude.{
  ℕ, ◌+◌, ◌-◌, ◌≤◌, ◌≡◌, inl, inr, subst, ap, ◌∙◌, Bool, true, List, [], ◌∷◌, Outcome, ok, panic,
  Ensures, ◌>>=◌, arith, Outcome-cases,
}
use trusted_gateway.Vqueue.State.{Ring}
use trusted_gateway.Vqueue.Setup.{Mmu, vqueue_init}
use trusted_gateway.Virtio.State.{Vnet, Mmio}
use trusted_gateway.Virtio.Net.{netcfg, netcfg_size, virtio_net_get_config}
use trusted_gateway.Virtio.Device.{read_le, valid_width, virtio_config_read}
use trusted_gateway.Virtio.Mmio.{vnic_handle_mmio_write, vnic_handle_mmio_read, config_start}
use trusted_gateway.Virtio.Init.{vnic_init, vnic_vdev_init, vnic_init_config}
use trusted_gateway.Virtio.Guards.{Inv, Guarded, misuse, vnic_handle_mmio_write-Guarded}
use trusted_gateway.Virtio.Fixed.{Fixed, Fixed-refl, Fixed-trans, KeepsFixed, write-Fixed}

pub record Access : Type 0 where
  pub offset : ℕ
  pub value : ℕ
  pub size : ℕ

unfoldable pub run : Mmu → List Access → Mmio → Outcome Mmio
run mmu [] m = ok m
run mmu (a ∷ rest) m =
    vnic_handle_mmio_write mmu m a.offset a.value a.size >>= λ m'. run mmu rest m'

vnic_init-Inv : (mem : ℕ → Ring) → Inv (vnic_init mem)
unfolding vnic_init vnic_vdev_init vqueue_init
vnic_init-Inv mem = record {
  device = record { queue_in = omega arith; queues = λ i. ground arith };
  guest_in = omega arith;
  host_in = omega arith;
}

Guarded-Ensures : (b : Bool) (o : Outcome Mmio) → Guarded b o → Ensures Inv o
Guarded-Ensures b (ok m) g = g.1
Guarded-Ensures b (panic e) g = tt

keep : (mmu : Mmu) (rest : List Access) (m : Mmio) → Inv m → Ensures Inv (run mmu rest m)
unfolding run
keep mmu [] m v = v
keep mmu (a ∷ rest) m v = elim (Outcome-cases written) [
  | inl (m', e) ↦ rw e (keep mmu rest m' (subst (Ensures Inv) e kept))
  | inr (x, e) ↦ rw e tt
]
  where
    written : Outcome Mmio
    written = vnic_handle_mmio_write mmu m a.offset a.value a.size

    kept : Ensures Inv written
    kept =
        Guarded-Ensures (misuse m a.offset a.value a.size) written
          (vnic_handle_mmio_write-Guarded mmu m a.offset a.value a.size v)

fix : (mmu : Mmu) (rest : List Access) (m : Mmio) → KeepsFixed m (run mmu rest m)
unfolding run
fix mmu [] m = Fixed-refl m.vdev
fix mmu (a ∷ rest) m = elim (Outcome-cases written) [
  | inl (m', e) ↦
      rw e (Fixed_then_run m m' (run mmu rest m') (subst (KeepsFixed m) e kept) (fix mmu rest m'))
  | inr (x, e) ↦ rw e tt
]
  where
    written : Outcome Mmio
    written = vnic_handle_mmio_write mmu m a.offset a.value a.size

    kept : KeepsFixed m written
    kept = write-Fixed mmu m a.offset a.value a.size

    Fixed_then_run :
        (m m' : Mmio) (o : Outcome Mmio) → Fixed m.vdev m'.vdev → KeepsFixed m' o → KeepsFixed m o
    Fixed_then_run m m' (ok c) s t = Fixed-trans m.vdev m'.vdev c.vdev s t
    Fixed_then_run m m' (panic e) s t = tt

-- The value that a read answers.
abbrev pub answer : Outcome (ℕ × Mmio) → Outcome ℕ
answer (ok r) = ok r.0
answer (panic e) = panic e

config_read_lem :
    (m : Mmio) (o size : ℕ)
    → m.vdev.vnet.config_size ≡ netcfg_size
    → m.vdev.config_len ≡ netcfg_size
    → o + size ≤ netcfg_size
    → valid_width size ≡ true
    → answer (vnic_handle_mmio_read m (config_start + o) size)
      ≡ ok (read_le (netcfg m.vdev.vnet) o size)
unfolding vnic_handle_mmio_read virtio_config_read virtio_net_get_config
config_read_lem m o size c l h w =
    subst
      (λ j.
        answer (vnic_handle_mmio_read m (config_start + o) size)
        ≡ ok (read_le (netcfg m.vdev.vnet) j size))
      {x = config_start + o - config_start} (omega arith) (ground (arith, c, l, h, w))

-- Whatever accesses the driver of a fresh device makes, what it then reads of the configuration, in
-- the region and at a valid width, is what the trusted side has set: MAC, status, queue pairs, MTU.
pub run-config_read :
    (mmu : Mmu) (mem : ℕ → Ring) (accesses : List Access) {m : Mmio} (o size : ℕ)
    → run mmu accesses (vnic_init mem) ≡ ok m
    → o + size ≤ netcfg_size
    → valid_width size ≡ true
    → answer (vnic_handle_mmio_read m (config_start + o) size)
      ≡ ok (read_le (netcfg vnic_init_config) o size)
unfolding vnic_init vnic_vdev_init vnic_init_config
run-config_read mmu mem accesses {m} o size e h w =
    let f = subst (KeepsFixed (vnic_init mem)) e (fix mmu accesses (vnic_init mem)) in
    config_read_lem m o size (ap (λ (n : Vnet). n.config_size) f.vnet) f.config_len h w
    ∙ ap (λ n. ok (read_le (netcfg n) o size)) f.vnet

-- Whatever accesses the driver of a fresh device makes, the selectors and the sizes of the queues
-- stay within their bounds and no closed queue has a pointer into a ring; and the next access panics
-- exactly if it is one of the three misuses.
pub run-Guarded :
    (mmu : Mmu) (mem : ℕ → Ring) (accesses : List Access) {m : Mmio} (a : Access)
    → run mmu accesses (vnic_init mem) ≡ ok m
    → Inv m
      × Guarded
          (misuse m a.offset a.value a.size)
          (vnic_handle_mmio_write mmu m a.offset a.value a.size)
run-Guarded mmu mem accesses {m} a e =
    let v = subst (Ensures Inv) e (keep mmu accesses (vnic_init mem) (vnic_init-Inv mem)) in
    (v, vnic_handle_mmio_write-Guarded mmu m a.offset a.value a.size v)
