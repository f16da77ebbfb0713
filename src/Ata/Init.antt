-- ===== src/Ata/Init.antt =====
-- `initialize_ata` of kernel/ata.c and what it calls. `none` means that the fuel of the one unbounded
-- loop ran out.
use magical_os.Base.{
  ℕ, zero, suc, ◌+◌, ◌*◌, Bool, true, false, not, ◌&&◌, Option, none, some, List, ◌==◌,
  if◌then◌else◌, get_or, replicate,
}
use magical_os.Base.Int.{ℤ, pos, negsuc}
use magical_os.Ata.Port.{
  Drive, M, pure, ◌>>=◌, ◌>>◌, inb, outb, wait, cylinder_low_register, cylinder_high_register,
  status_register, alternate_status_register,
}
use magical_os.Ata.{
  is_error, is_drq_active, set_device_number, do_device_selection_protocol, get_drdy,
  print_error_register, is_device_fault, wait_until_bsy_is_zero, in_words,
}
use magical_os.Pci.{Pci, PciDevice, get_pci_device, pci_data_read}

pub data DeviceType : Type 0 where
  unknown ata atapi : DeviceType

unfoldable pub get_device_type : ℕ → ℕ → DeviceType
get_device_type high low =
    if (high == 0) && (low == 0)
    then ata
    else if (high == 0xeb) && (low == 0x14)
    then atapi
    else unknown

-- The search for the one device of `ata_info` in the list of PCI devices.
unfoldable pub find_ata_device : List PciDevice → Option PciDevice
find_ata_device devices = get_pci_device 0x8086 0x7111 1 devices

-- The loop of `get_base_address` from the register `i` on, with so many rounds left: the address stored
-- last, and the state.
unfoldable pub base_from : (ℕ → ℕ) → PciDevice → (rounds i : ℕ) → ℕ → Pci → ℕ × Pci
base_from config this_device zero i base s = (base, s)
base_from config this_device (suc rounds) i base s =
    let (base', s') = pci_data_read config this_device i s in
    let rest = base_from config this_device rounds (i + 4) base' s' in
    if base' == 0 then rest else (base', s')

unfoldable pub get_base_address : (ℕ → ℕ) → PciDevice → ℕ → Pci → ℕ × Pci
unfolding base_from
get_base_address config this_device base s = base_from config this_device 6 0x10 base s

module _ (dev : Drive) where
  -- From `read_status_register` on.
  unfoldable pub identify_loop : ℕ → ℕ → List ℕ → M (Option (Bool × List ℕ))
  identify_loop zero device buf = pure none
  identify_loop (suc fuel) device buf = do
    status ← inb dev status_register
    let rest = identify_loop fuel device buf
    if is_error status
        then print_error_register dev device >> pure (some (false, buf))
        else if not (is_drq_active status)
        then rest
        else (do
          fault ← is_device_fault dev
          if fault
              then pure (some (false, buf))
              else (do words ← in_words dev 256; pure (some (true, words))))

  -- The result with the buffer after the call.
  unfoldable pub do_identify_device : ℕ → ℕ → List ℕ → M (Option (Bool × List ℕ))
  do_identify_device fuel device buf = do
    do_device_selection_protocol dev device
    ready ← get_drdy dev
    if ready
        then (do
          outb 0xec status_register
          wait 5
          idle ← wait_until_bsy_is_zero dev status_register
          if not idle
              then pure (some (false, buf))
              else (do inb dev alternate_status_register; identify_loop fuel device buf))
        else pure (some (true, buf))

  unfoldable pub do_soft_reset : ℕ → M (Unit {0})
  do_soft_reset device = do set_device_number dev device; outb 0x08 status_register; wait 5

  set_max : List ℕ → M (Unit {0})
  set_max buf s = (tt, record s { max_sector = get_or buf 61 0 * 0x10000 + get_or buf 60 0 })

  finish_identify : Option (Bool × List ℕ) → M (Option Bool)
  finish_identify none = pure none
  finish_identify (some (false, buf)) = pure (some false)
  finish_identify (some (true, buf)) = set_max buf >> pure (some true)

  unfoldable pub initialize_common : ℕ → ℕ → M (Option Bool)
  unfolding set_max finish_identify
  initialize_common fuel device = do
    do_soft_reset device
    low ← inb dev cylinder_low_register
    high ← inb dev cylinder_high_register
    elim (get_device_type high low) [
      | ata ↦ do_identify_device fuel device (replicate 256 0) >>= finish_identify
      | _ ↦ pure (some false)
    ]

  -- The slave is tried after the master; its failure does not count.
  slave : Option Bool → M (Option Bool)
  slave none = pure none
  slave (some _) = pure (some true)

  unfoldable pub initialize_ata : ℕ → M (Option Bool)
  unfolding slave
  initialize_ata fuel = do
    ret ← initialize_common fuel 0
    elim ret [ some true ↦ initialize_common fuel 1 >>= slave | other ↦ pure other ]

  unfoldable pub open_ata_disk : ℕ → M (Option ℤ)
  open_ata_disk fuel = do
    ret ← initialize_ata fuel
    pure (elim ret [ none ↦ none | some true ↦ some (pos 0) | some false ↦ some (negsuc 0) ])
