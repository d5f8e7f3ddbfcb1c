-- ===== src/Virtio/Tests.antt =====
-- The device's theorems at concrete accesses, and a negotiation as a driver makes it.
use trusted_gateway.Prelude.{
  ℕ, ◌≡◌, refl, if◌then◌else◌, ◌==◌, arith, true, false, List, [], ◌∷◌, Outcome, ok, panic, Ensures,
  negotiation,
}
use trusted_gateway.Vqueue.State.{Ring}
use trusted_gateway.Vqueue.Setup.{Mmu}
use trusted_gateway.Virtio.State.{Mmio}
use trusted_gateway.Virtio.Net.{netcfg, virtio_net_set_status, virtio_net_set_config}
use trusted_gateway.Virtio.Device.{virtio_set_features, virtio_set_status, virtio_config_write}
use trusted_gateway.Virtio.Mmio.{
  vnic_handle_mmio_write, vnic_handle_mmio_read, vnic_emu_check, read_after,
}
use trusted_gateway.Virtio.Init.{vnic_init, vnic_init_config}
use trusted_gateway.Virtio.Guards.{Inv, Guarded, misuse, vnic_handle_mmio_write-Guarded}
use trusted_gateway.Virtio.Features.{status-features_panic}
use trusted_gateway.Virtio.Sticky.{Sticky, ok_throughout, run-Sticky}
use trusted_gateway.Virtio.Emu.{Emulated, vnic_emu_check-Emulated}
use trusted_gateway.Virtio.Config.{Access, run, answer, run-config_read, run-Guarded}

abbrev memory : ℕ → Ring
memory i = record {
  desc = λ j. record {
    addr = 0;
    addr_again = 0;
    len = 0;
    len_again = 0;
    f_write = false;
    f_next = false;
    next = 0;
  };
  avail_idx = 0;
  avail_idx_again = 0;
  avail_ring = λ j. 0;
  used_no_notify = false;
  used_idx = 0;
  used_ring = λ j. record { id = 0; len = 0 };
}

-- Memory that is mapped one to one.
abbrev mmu : Mmu
mmu = record { va_before = λ pa. pa; va_after = λ pa. pa; add_mapping = λ pa len. true }

abbrev puts : ℕ → ℕ → Access
puts offset value = record { offset = offset; value = value; size = 4 }

-- A driver that accepts VERSION_1 and the MAC, and overwrites a byte of the MAC on its way.
abbrev negotiate : List Access
negotiate =
    puts 0x070 0x3
    ∷ puts 0x024 1
    ∷ puts 0x020 1
    ∷ puts 0x024 0
    ∷ puts 0x020 0x20
    ∷ record { offset = 0x101; value = 0xff; size = 1 }
    ∷ puts 0x070 0xb
    ∷ []

-- What the runs end in.
abbrev state : Outcome Mmio → Mmio
unfolding vnic_init
state (ok m) = m
state (panic e) = vnic_init memory

abbrev negotiated : Mmio
negotiated = state (run mmu negotiate (vnic_init memory))

run_returns : run mmu negotiate (vnic_init memory) ≡ ok negotiated
unfolding run vnic_init vnic_handle_mmio_write virtio_set_status virtio_config_write
    virtio_net_set_status virtio_set_features virtio_net_set_config
run_returns = refl

features_are_negotiated : negotiated.vdev.guest_features ≡ 0x100000020
unfolding run vnic_init vnic_handle_mmio_write virtio_set_status virtio_config_write
    virtio_net_set_status virtio_set_features virtio_net_set_config
features_are_negotiated = refl

vnic_handle_mmio_write-Guarded_example :
    Guarded (misuse negotiated 0x044 1 4) (vnic_handle_mmio_write mmu negotiated 0x044 1 4)
vnic_handle_mmio_write-Guarded_example =
    vnic_handle_mmio_write-Guarded mmu negotiated 0x044 1 4
      (run-Guarded mmu memory negotiate (puts 0x044 1) run_returns).0

run-Guarded_example :
    Inv negotiated
    × Guarded (misuse negotiated 0x044 1 4) (vnic_handle_mmio_write mmu negotiated 0x044 1 4)
run-Guarded_example = run-Guarded mmu memory negotiate (puts 0x044 1) run_returns

-- The byte that was overwritten reads as before.
run-config_read_example : answer (vnic_handle_mmio_read negotiated 0x101 1) ≡ ok 0x19
unfolding netcfg vnic_init_config
run-config_read_example = run-config_read mmu memory negotiate 1 1 run_returns (omega arith) refl

-- A driver that has accepted VERSION_1 only.
abbrev version_only : Mmio
unfolding vnic_init
version_only = record (vnic_init memory) { guest_features = λ i. if i == 1 then 1 else 0 }

status-features_panic_example :
    vnic_handle_mmio_write mmu version_only 0x070 0xb 4 ≡ panic negotiation
unfolding vnic_init
status-features_panic_example = status-features_panic mmu version_only 0xb refl refl refl

-- Another queue is selected, other features are written, and the driver is ready.
abbrev afterwards : List Access
afterwards = puts 0x030 1 ∷ puts 0x020 0 ∷ puts 0x070 0xf ∷ []

run-Sticky_example :
    Ensures
      (λ (m : Mmio). Sticky negotiated.vdev.guest_features m.vdev)
      (run mmu afterwards negotiated)
unfolding run vnic_init vnic_handle_mmio_write virtio_set_status virtio_config_write
    virtio_net_set_status virtio_set_features virtio_net_set_config ok_throughout
run-Sticky_example = run-Sticky mmu afterwards negotiated refl

vnic_emu_check-Emulated_example :
    Emulated mmu negotiated read_after 0x000 0 1 true
      (vnic_emu_check mmu negotiated read_after 0x000 0 1 true)
vnic_emu_check-Emulated_example = vnic_emu_check-Emulated mmu negotiated read_after 0x000 0 1 true
