-- ===== src/Ata/Register/Laws.antt =====
-- What `init_ata_disk_driver` leaves.
use magical_os.Base.{
  ℕ, zero, suc, sym, ◌+◌, ◌*◌, ◌^◌, ◌<◌, ◌≡◌, ◌≢◌, refl, ap, ◌∙◌, true, false, Bool-cases, inl, inr,
  none, some, List, [], ◌∷◌, arith, ◌==◌, if◌then◌else◌, length, mem, Distinct,
}
use magical_os.Bytes.{Memory, CString}
use magical_os.Str.Compare.{strcmp_lem}
use magical_os.Block.{Drivers, get_blk_driver}
use magical_os.Block.Laws.{Leads, register_blk_driver_lem}
use magical_os.Pci.{
  PciDevice, Pci, pci_data_read, read_pci_data, write_pci_config_address,
  finish_access_to_config_data,
}
use magical_os.Pci.Write.{Bus, write_pci_data, pci_data_write}
use magical_os.Ata.{bit}
use magical_os.Ata.Init.{find_ata_device, get_base_address, base_from}
use magical_os.Ata.Register.{Disk, set_bus_master_bit, set_up, init_ata_disk_driver}

-- The address of a register of a device.
abbrev pub register : PciDevice → ℕ → ℕ
register d number = 2 ^ 31 + d.bus * 2 ^ 16 + d.devfn * 2 ^ 11 + d.func * 2 ^ 8 + number

-- The first of these registers that is not zero, or zero.
abbrev pub first_nonzero : (ℕ → ℕ) → List ℕ → ℕ
first_nonzero read [] = 0
first_nonzero read (n ∷ ns) = if read n == 0 then first_nonzero read ns else read n

-- `data | 0x04`
abbrev pub with_bus_master : ℕ → ℕ
with_bus_master data' = if bit 0x04 data' then data' else data' + 0x04

pci_data_read-register :
    (config : ℕ → ℕ) (d : PciDevice) (number : ℕ) (s : Pci)
    → (pci_data_read config d number s).0 ≡ config (register d number)
unfolding pci_data_read read_pci_data write_pci_config_address finish_access_to_config_data
pci_data_read-register config d number s = ap config (omega arith)

-- `n` registers from `i` on.
abbrev pub registers : ℕ → ℕ → List ℕ
registers zero i = []
registers (suc n) i = i ∷ registers n (i + 4)

base_from-first :
    (config : ℕ → ℕ) (d : PciDevice) (rounds i base : ℕ) (s : Pci)
    → (rounds ≡ 0 → base ≡ 0)
    → (base_from config d rounds i base s).0
      ≡ first_nonzero (λ n. config (register d n)) (registers rounds i)
unfolding base_from
base_from-first config d zero i base s z = z refl
base_from-first config d (suc rounds) i base s z =
    let r = pci_data_read-register config d i s in
    elim (Bool-cases ((pci_data_read config d i s).0 == 0)) [
      | inl e ↦
          let e' : (config (register d i) == 0) ≡ true = ap (λ v. v == 0) (sym r) ∙ e in
          rw (e, e')
            (base_from-first config d rounds (i + 4) (pci_data_read config d i s).0
              (pci_data_read config d i s).1 (λ t. ground (arith, e)))
      | inr e ↦
          let e' : (config (register d i) == 0) ≡ false = ap (λ v. v == 0) (sym r) ∙ e in
          rw (e, e') r
    ]

set_bus_master_bit-writes :
    (config : List (ℕ × ℕ) → ℕ → ℕ) (d : PciDevice) (b : Bus)
    → (set_bus_master_bit config d b).writes
      ≡ (register d 4, with_bus_master (config b.writes (register d 4))) ∷ b.writes
unfolding set_bus_master_bit pci_data_write write_pci_data pci_data_read read_pci_data
    write_pci_config_address finish_access_to_config_data
set_bus_master_bit-writes config d b =
    ap (λ a. (a, with_bus_master (config b.writes a)) ∷ b.writes) (omega arith)

-- The list finds the driver that stands first, if its name is the one asked for.
get_blk_driver-first :
    (fuel k : ℕ) (mem : Memory) (name_of : ℕ → ℕ) (head name p : ℕ) (d : Drivers) (xs : List ℕ)
    → d.next head ≡ p
    → p ≢ head
    → CString mem (name_of (d.op p)) xs
    → CString mem name xs
    → length xs < k
    → 0 < fuel
    → get_blk_driver fuel k mem name_of head name d ≡ some p
unfolding get_blk_driver
get_blk_driver-first zero k mem' name_of head name p d xs e far own asked lt go = elim go [ ]
get_blk_driver-first (suc fuel) k mem' name_of head name p d xs e far own asked lt go =
    let equal = (strcmp_lem k mem' (name_of (d.op p)) name xs xs own asked lt).1.1 refl in
    let f : (p == head) ≡ false = ground arith in rw (e, f, equal) (ap some e)

-- The driver is set up for the device `d`, where `s` was before: its command register has been written
-- once, with the bus master bit set and the other bits as they were read; the base address is the first
-- of the registers 0x10 to 0x24 that is not zero then; and the driver stands first in the list, the
-- others `xs` behind it in their order.
pub record Registered (config : List (ℕ × ℕ) → ℕ → ℕ) (head p op : ℕ) (xs : List ℕ) (d : PciDevice)
    (s s' : Disk) : Type 0 where
  pub device : s'.this_device ≡ some d
  pub writes :
      s'.bus.writes
      ≡ (register d 4, with_bus_master (config s.bus.writes (register d 4))) ∷ s.bus.writes
  pub base :
      s'.base_address
      ≡ first_nonzero
          (λ n. config s'.bus.writes (register d n))
          (0x10 ∷ 0x14 ∷ 0x18 ∷ 0x1c ∷ 0x20 ∷ 0x24 ∷ [])
  pub drivers : Leads s'.drivers head (p ∷ xs) head
  pub operations : s'.drivers.op p ≡ op

set_up-Registered :
    (config : List (ℕ × ℕ) → ℕ → ℕ) (head p op : ℕ) (xs : List ℕ) (d : PciDevice) (s : Disk)
    → Leads s.drivers head xs head
    → Distinct (head ∷ xs)
    → mem p (head ∷ xs) ≡ false
    → Registered config head p op xs d s (set_up config d head p op s)
unfolding set_up get_base_address
set_up-Registered config head p op xs d s leads dis out =
    let (list, first, others) = register_blk_driver_lem head p op s.drivers xs leads dis out in
    let b = set_bus_master_bit config d s.bus in
    record {
      device = refl;
      writes = set_bus_master_bit-writes config d s.bus;
      base =
          base_from-first (config b.writes) d 6 0x10 s.base_address b.pci (λ z. ground (arith, z));
      drivers = list;
      operations = first;
    }

-- What a search for the driver by a name equal to its own gives in this state, with fuel for one driver.
abbrev pub FoundBy : (head p op : ℕ) → Drivers → Type 0
FoundBy head p op d =
    (fuel k : ℕ) (mem : Memory) (name_of : ℕ → ℕ) (name : ℕ) (xs : List ℕ)
    → CString mem (name_of op) xs
    → CString mem name xs
    → length xs < k
    → 0 < fuel
    → get_blk_driver fuel k mem name_of head name d ≡ some p

-- Without the device in the list `init_ata_disk_driver` fails and changes no register and no driver. With
-- it, and a fresh object for the list of drivers, it succeeds: the driver is set up for the first device
-- that matches, and a search for a driver by its name finds it.
pub init_ata_disk_driver_lem :
    (config : List (ℕ × ℕ) → ℕ → ℕ) (head p op : ℕ) (xs : List ℕ) (s : Disk)
    → Leads s.drivers head xs head
    → Distinct (head ∷ xs)
    → mem p (head ∷ xs) ≡ false
    → (find_ata_device s.bus.pci.devices ≡ none
        → init_ata_disk_driver config head p op s ≡ (false, record s { this_device = none }))
      × ((d : PciDevice)
          → find_ata_device s.bus.pci.devices ≡ some d
          → ((init_ata_disk_driver config head p op s).0 ≡ true)
            × Registered config head p op xs d s (init_ata_disk_driver config head p op s).1
            × FoundBy head p op (init_ata_disk_driver config head p op s).1.drivers)
unfolding init_ata_disk_driver
init_ata_disk_driver_lem config head p op xs s leads dis out = (
  λ e. rw (init_ata_disk_driver, e) refl,
  λ d e.
      let v = set_up-Registered config head p op xs d s leads dis out in
      rw (init_ata_disk_driver, e)
        (
          refl,
          v,
          λ fuel k mem' name_of name ys own asked lt go.
              get_blk_driver-first fuel k mem' name_of head name p
                (set_up config d head p op s).drivers ys v.drivers.0 (ground (arith, out))
                (rw v.operations own) asked lt go,
        ),
)
