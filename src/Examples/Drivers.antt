-- ===== src/Examples/Drivers.antt =====
-- The theorems on the ATA driver's set-up and on the loops of the timer: the one PCI device is the
-- controller, whose register 0x20 has a base address, and the list of drivers has one at 0x300.
use magical_os.Base.{
  ℕ, ◌+◌, ◌*◌, ◌^◌, ◌<◌, ◌≤◌, ◌≡◌, refl, arith, true, false, some, none, List, [], ◌∷◌, ◌==◌,
  if◌then◌else◌, Returns,
}
use magical_os.Ata.Init.{find_ata_device}
use magical_os.Ata.Register.{Disk, init_ata_disk_driver}
use magical_os.Ata.Register.Laws.{register, Registered, FoundBy, init_ata_disk_driver_lem}
use magical_os.Boot.Drivers.{start_drivers, Searched, start_drivers-Searched}
use magical_os.Pci.{PciDevice}
use magical_os.Pci.Scan.{answering-bound}
use magical_os.Timer.{timer_wait_loop_sec}
use magical_os.Timer.Laws.{Waited, timer_wait_loop_lem}

abbrev controller : PciDevice
controller = record {
  bus = 0;
  devfn = 1;
  func = 1;
  vender = 0x8086;
  devid = 0x7111;
  pg_if = 0x80;
  sub_class = 1;
  base_class = 1;
  header_type = 0;
  multi = 0;
  sub_vender = 0;
  sub_devid = 0;
}

abbrev space : List (ℕ × ℕ) → ℕ → ℕ
space writes a =
    if a == register controller 0x20 then 0xc001 else if a == register controller 4 then 1 else 0

abbrev disk : Disk
disk = record {
  bus = record {
    pci = record { config_address = 0; devices = controller ∷ []; nodes = 0 };
    writes = [];
  };
  drivers = record { next = λ a. if a == 0x100 then 0x300 else 0x100; op = λ a. 0x40 };
  this_device = none;
  base_address = 0;
}

init_ata_disk_driver_lem_example :
    (find_ata_device (controller ∷ []) ≡ none
      → init_ata_disk_driver space 0x100 0x400 0x50 disk
        ≡ (false, record disk { this_device = none }))
    × ((d : PciDevice)
        → find_ata_device (controller ∷ []) ≡ some d
        → ((init_ata_disk_driver space 0x100 0x400 0x50 disk).0 ≡ true)
          × Registered space 0x100 0x400 0x50
              (0x300 ∷ [])
              d
              disk
              (init_ata_disk_driver space 0x100 0x400 0x50 disk).1
          × FoundBy 0x100 0x400 0x50 (init_ata_disk_driver space 0x100 0x400 0x50 disk).1.drivers)
init_ata_disk_driver_lem_example =
    init_ata_disk_driver_lem space 0x100 0x400 0x50 (0x300 ∷ []) disk (refl, refl)
      (refl, (refl, tt)) refl

-- The counter goes up by 10 between two reads.
timer_wait_loop_lem_example :
    (40 + 2 * 1000 + 1 < 2 ^ 32
      → 40 + 2 * 1000 < 40 + (1 + 200) * 10
      → Returns
          (Waited (λ k. 40 + k * 10) 40 (2 * 1000) 1)
          (timer_wait_loop_sec 201 (λ k. 40 + k * 10) 2))
    × (2 ^ 32 ≤ 40 + 2 * 1000 + 1
        → 2 * 1000 + 1 < 2 ^ 32
        → 40 ≤ 50
        → timer_wait_loop_sec 201 (λ k. 40 + k * 10) 2 ≡ some 1)
timer_wait_loop_lem_example = timer_wait_loop_lem 201 200 (λ k. 40 + k * 10) 2 (omega arith)

-- The name "A" stands at 10, and that of the driver is there too.
abbrev no_drivers : Disk
no_drivers = record disk {
  bus = record { pci = record { config_address = 0; devices = []; nodes = 60000 }; writes = [] };
  drivers = record { next = λ a. 0x100; op = λ a. 0 };
}

start_drivers-Searched_example : Returns (Searched 0x400 0x50) (
    start_drivers space 1 2
      (λ a. if a == 10 then b'A' else 0)
      (λ o. 10)
      0x100
      0x400
      0x50
      10
      no_drivers)
start_drivers-Searched_example =
    start_drivers-Searched space 1 2 (λ a. if a == 10 then b'A' else 0) (λ o. 10) 0x100 0x400 0x50
      10 (b'A' ∷ []) no_drivers refl (omega (arith, answering-bound (space []))) refl (omega arith)
      (omega arith) (omega arith) (omega arith) (omega arith)
