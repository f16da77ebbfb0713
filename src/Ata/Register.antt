-- ===== src/Ata/Register.antt =====
-- `init_ata_disk_driver` of kernel/ata.c and what it calls. `p` is the object that `kmalloc` gives for the
-- list of drivers, and `op` the operations of the driver.
pub mod Laws
use magical_os.Base.{
  ℕ, ◌+◌, ◌*◌, ◌^◌, Bool, true, false, Option, none, some, List, ◌∷◌, if◌then◌else◌, map_some,
}
use magical_os.Ata.{bit}
use magical_os.Ata.Init.{find_ata_device, get_base_address}
use magical_os.Block.{Drivers, register_blk_driver, remove_blk_driver}
use magical_os.Base.Int.{ℤ, pos}
use magical_os.Pci.{PciDevice, pci_data_read}
use magical_os.Pci.Write.{Bus, pci_data_write}

-- `base_address` is the field of `this_device`.
pub record Disk : Type 0 where
  pub bus : Bus
  pub drivers : Drivers
  pub this_device : Option PciDevice
  pub base_address : ℕ

module _ (config : List (ℕ × ℕ) → ℕ → ℕ) where
  -- `data | 0x04`
  unfoldable pub set_bus_master_bit : PciDevice → Bus → Bus
  set_bus_master_bit this_device b =
      let (data', s) = pci_data_read (config b.writes) this_device 0x4 b.pci in
      pci_data_write this_device 0x4 (if bit 0x04 data' then data' else data' + 0x04)
        (record b { pci = s })

  -- With a device that was found.
  unfoldable pub set_up : PciDevice → ℕ → ℕ → ℕ → Disk → Disk
  set_up this_device head p op s =
      let b = set_bus_master_bit this_device s.bus in
      let (base, pci') = get_base_address (config b.writes) this_device s.base_address b.pci in
      record {
        bus = record b { pci = pci' };
        drivers = register_blk_driver head p op s.drivers;
        this_device = some this_device;
        base_address = base;
      }

  unfoldable pub init_ata_disk_driver : ℕ → ℕ → ℕ → Disk → Bool × Disk
  init_ata_disk_driver head p op s = elim (find_ata_device s.bus.pci.devices) [
    | none ↦ (false, record s { this_device = none })
    | some d ↦ (true, set_up d head p op s)
  ]

-- The list of drivers is not changed; `none` means that the fuel of `remove_blk_driver` ran out.
unfoldable pub close_ata_disk : ℕ → ℕ → ℕ → Drivers → Option ℤ
close_ata_disk fuel head op d = map_some (λ u. pos 0) (remove_blk_driver fuel head op d)
