-- ===== src/Boot/Drivers.antt =====
-- kernel/init.c: `kern_init` behind `sti`, up to the search for the disk driver. `p` is the object that
-- `kmalloc` gives for the list of drivers, `op` the operations of the ATA driver, and `name` the address of
-- the name that is asked for; `k` is the fuel of a comparison of names, and `fuel` that of the list.
use magical_os.Base.{
  ℕ, zero, suc, ◌+◌, ◌<◌, ◌≤◌, ◌≡◌, ◌≢◌, refl, ap, sym, ◌∙◌, Bool, Option, none, some, List, [],
  arith, mem, false, length, Returns, Returns-some, ◌==◌, true, Bool-cases, inl, inr,
}
use mathlib.Core.Path.{subst}
use magical_os.Bytes.{Memory, CString}
use magical_os.Block.{Drivers, get_blk_driver}
use magical_os.Pci.{
  Pci, PciDevice, find_pci_device, pci_data_read, read_pci_data, write_pci_config_address,
  finish_access_to_config_data,
}
use magical_os.Pci.Write.{Bus, pci_data_write, write_pci_data}
use magical_os.Pci.Scan as Scan
use magical_os.Pci.Scan.{find_pci_device_lem, Ranged, answering}
use magical_os.Ata.Init.{find_ata_device, get_base_address, base_from}
use magical_os.Ata.Register.{Disk, set_bus_master_bit, set_up, init_ata_disk_driver}
use magical_os.Ata.Register.Laws.{init_ata_disk_driver_lem}

-- The object that the search gives, and the state.
unfoldable pub start_drivers :
    (List (ℕ × ℕ) → ℕ → ℕ)
    → (fuel k : ℕ) → Memory
    → (ℕ → ℕ)
    → (head p op name : ℕ) → Disk
    → Option (ℕ × Disk)
start_drivers config fuel k mem name_of head p op name s =
    elim (find_pci_device (config s.bus.writes) s.bus.pci) [
      | none ↦ none
      | some pci ↦
          let (found, s') =
            init_ata_disk_driver config head p op (record s { bus = record s.bus { pci = pci } }) in
          elim (get_blk_driver fuel k mem name_of head name s'.drivers) [
            | none ↦ none
            | some r ↦ some (r, s')
          ]
    ]

pci_data_read-devices :
    (config : ℕ → ℕ) (d : PciDevice) (number : ℕ) (s : Pci)
    → (pci_data_read config d number s).1.devices ≡ s.devices
unfolding pci_data_read read_pci_data write_pci_config_address finish_access_to_config_data
pci_data_read-devices config d number s = refl

base_from-devices :
    (config : ℕ → ℕ) (d : PciDevice) (rounds i base : ℕ) (s : Pci)
    → (base_from config d rounds i base s).1.devices ≡ s.devices
unfolding base_from
base_from-devices config d zero i base s = refl
base_from-devices config d (suc rounds) i base s =
    elim (Bool-cases ((pci_data_read config d i s).0 == 0)) [
      | inl e ↦
          rw e (
            base_from-devices config d rounds (i + 4) (pci_data_read config d i s).0
              (pci_data_read config d i s).1)
          ∙ pci_data_read-devices config d i s
      | inr e ↦ rw e (pci_data_read-devices config d i s)
    ]

set_bus_master_bit-devices :
    (config : List (ℕ × ℕ) → ℕ → ℕ) (d : PciDevice) (b : Bus)
    → (set_bus_master_bit config d b).pci.devices ≡ b.pci.devices
unfolding set_bus_master_bit pci_data_write write_pci_data write_pci_config_address
    finish_access_to_config_data
set_bus_master_bit-devices config d b = pci_data_read-devices (config b.writes) d 4 b.pci

set_up-devices :
    (config : List (ℕ × ℕ) → ℕ → ℕ) (d : PciDevice) (head p op : ℕ) (s : Disk)
    → (set_up config d head p op s).bus.pci.devices ≡ s.bus.pci.devices
unfolding set_up get_base_address
set_up-devices config d head p op s =
    let b = set_bus_master_bit config d s.bus in
    base_from-devices (config b.writes) d 6 0x10 s.base_address b.pci
    ∙ set_bus_master_bit-devices config d s.bus

-- What the search gives: the driver for the controller of the devices that were scanned, or NULL.
pub record Searched (p op : ℕ) (r : ℕ × Disk) : Type 0 where
  pub scanned : Ranged r.1.bus.pci.devices
  pub missing : find_ata_device r.1.bus.pci.devices ≡ none → r.0 ≡ 0
  pub driver :
      (d : PciDevice)
      → find_ata_device r.1.bus.pci.devices ≡ some d
      → (r.0 ≡ p) × (r.1.drivers.op p ≡ op) × (r.1.this_device ≡ some d)

none_ne_some : {d : PciDevice} → none ≢ some d
none_ne_some e = ground (arith, e)

init-devices :
    (config : List (ℕ × ℕ) → ℕ → ℕ) (head p op : ℕ) (s : Disk)
    → (init_ata_disk_driver config head p op s).1.bus.pci.devices ≡ s.bus.pci.devices
unfolding init_ata_disk_driver
init-devices config head p op s = by_device (find_ata_device s.bus.pci.devices)
  where
    by_device :
        (o : Option PciDevice)
        → (elim o as (λ x. Bool × Disk) [
          | none ↦ (false, record s { this_device = none })
          | some d ↦ (true, set_up config d head p op s)
        ]).1.bus.pci.devices
          ≡ s.bus.pci.devices
    by_device none = refl
    by_device (some d) = set_up-devices config d head p op s

scan_returns :
    (config : ℕ → ℕ) (s : Pci)
    → s.devices ≡ []
    → answering config ≤ s.nodes
    → Returns (λ s'. Ranged s'.devices) (find_pci_device config s)
scan_returns config s e le =
    subst
      (λ ds.
        Returns (λ s'. Ranged s'.devices)
          (find_pci_device config (Scan.state s.config_address ds s.nodes)))
      (sym e) (find_pci_device_lem config s.config_address s.nodes le)

get_blk_driver-empty :
    (fuel k : ℕ) (mem' : Memory) (name_of : ℕ → ℕ) (head name : ℕ) (d : Drivers)
    → d.next head ≡ head
    → 0 < fuel
    → get_blk_driver fuel k mem' name_of head name d ≡ some 0
unfolding get_blk_driver
get_blk_driver-empty zero k mem' name_of head name d e lt = elim lt [ ]
get_blk_driver-empty (suc fuel) k mem' name_of head name d e lt =
    let t : (d.next head == head) ≡ true = ground arith in rw t refl

module _ (config : List (ℕ × ℕ) → ℕ → ℕ) (fuel k : ℕ) (mem' : Memory) (name_of : ℕ → ℕ)
    (head p op name : ℕ) (xs : List ℕ) (own : CString mem' (name_of op) xs)
    (asked : CString mem' name xs) (enough : (0 < fuel) × (length xs < k)) where
  -- The list of devices after the scan.
  abbrev scanned_disk : Pci → Disk → Disk
  scanned_disk pci s = record s { bus = record s.bus { pci = pci } }

  start_drivers-eq :
      (s : Disk) (pci : Pci) (r : ℕ)
      → find_pci_device (config s.bus.writes) s.bus.pci ≡ some pci
      → get_blk_driver fuel k mem' name_of head name
          (init_ata_disk_driver config head p op (scanned_disk pci s)).1.drivers
        ≡ some r
      → start_drivers config fuel k mem' name_of head p op name s
        ≡ some (r, (init_ata_disk_driver config head p op (scanned_disk pci s)).1)
  unfolding start_drivers
  start_drivers-eq s pci r e g = rw (start_drivers, e, g) refl

  start_drivers-with :
      (s : Disk) (pci : Pci) (o : Option PciDevice)
      → s.drivers.next head ≡ head
      → p ≢ head
      → find_pci_device (config s.bus.writes) s.bus.pci ≡ some pci
      → Ranged pci.devices
      → find_ata_device pci.devices ≡ o
      → Returns (Searched p op) (start_drivers config fuel k mem' name_of head p op name s)
  start_drivers-with s pci none empty far e ranged m =
      let s1 = scanned_disk pci s in
      let same =
        (init_ata_disk_driver_lem config head p op [] s1 empty (refl, tt) (ground arith)).0 m in
      let none_found =
        ap (λ (r : Bool × Disk). get_blk_driver fuel k mem' name_of head name r.1.drivers) same
        ∙ get_blk_driver-empty fuel k mem' name_of head name s.drivers empty enough.0 in
      let state = ap (λ (r : Bool × Disk). some (0, r.1)) same in
      subst (Returns (Searched p op)) (sym (start_drivers-eq s pci 0 e none_found ∙ state))
        (record {
          scanned = ranged;
          missing = λ n. refl;
          driver = λ d n. absurd (none_ne_some (sym m ∙ n));
        })
  start_drivers-with s pci (some d) empty far e ranged m =
      let s1 = scanned_disk pci s in
      let (ok, v, found) =
        (init_ata_disk_driver_lem config head p op [] s1 empty (refl, tt) (ground arith)).1 d m in
      let got = found fuel k mem' name_of name xs own asked enough.1 enough.0 in
      let final = (init_ata_disk_driver config head p op s1).1 in
      let same : final.bus.pci.devices ≡ pci.devices = init-devices config head p op s1 in
      subst (Returns (Searched p op)) (sym (start_drivers-eq s pci p e got)) (record {
        scanned = subst Ranged (sym same) ranged;
        missing = λ n. absurd (none_ne_some (sym n ∙ ap find_ata_device same ∙ m));
        driver = λ d' n. (refl, v.operations, v.device ∙ sym m ∙ sym (ap find_ata_device same) ∙ n);
      })

-- From empty lists of devices and of drivers, with a node for each function that answers, an object for
-- the list of drivers, and fuel for the name and one driver, the scan and the search end: with the ATA
-- driver if the controller is among the devices, and with NULL, whose fields `kern_init` reads, if not.
pub start_drivers-Searched :
    (config : List (ℕ × ℕ) → ℕ → ℕ) (fuel k : ℕ) (mem' : Memory) (name_of : ℕ → ℕ)
    (head p op name : ℕ) (xs : List ℕ) (s : Disk)
    → s.bus.pci.devices ≡ []
    → answering (config s.bus.writes) ≤ s.bus.pci.nodes
    → s.drivers.next head ≡ head
    → p ≢ head
    → CString mem' (name_of op) xs
    → CString mem' name xs
    → 0 < fuel
    → length xs < k
    → Returns (Searched p op) (start_drivers config fuel k mem' name_of head p op name s)
start_drivers-Searched config fuel k mem' name_of head p op name xs s e le empty far own asked go
      lt =
    let (pci, scan, ranged) =
      Returns-some (find_pci_device (config s.bus.writes) s.bus.pci)
        (scan_returns (config s.bus.writes) s.bus.pci e le) in
    start_drivers-with config fuel k mem' name_of head p op name xs own asked (go, lt) s pci
      (find_ata_device pci.devices) empty far scan ranged refl
