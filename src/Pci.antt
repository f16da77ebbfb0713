-- ===== src/Pci.antt =====
-- kernel/pci.c. What the bus holds is a parameter: the data of a configuration register, by the
-- address written to CONFIG_ADDRESS. `|` of the address is a sum: the fields do not overlap for a bus
-- below 256, a device below 32, a function below 8 and a register below 256. The nodes that `kmalloc`
-- gives are a number.
pub mod Laws
pub mod Scan
pub mod Write
use magical_os.Base.{
  ℕ, zero, suc, ◌+◌, ◌-◌, ◌*◌, ◌/◌, ◌%◌, ◌^◌, Bool, true, false, not, ◌&&◌, ◌||◌, Option, none,
  some, List, [], ◌∷◌, ◌==◌, if◌then◌else◌,
}

pub record PciConfigurationRegister : Type 0 where
  pub enable_bit : ℕ
  pub reserved : ℕ
  pub bus_num : ℕ
  pub dev_num : ℕ
  pub func_num : ℕ
  pub reg_num : ℕ

pub record PciDevice : Type 0 where
  pub bus : ℕ
  pub devfn : ℕ
  pub func : ℕ
  pub vender : ℕ
  pub devid : ℕ
  pub pg_if : ℕ
  pub sub_class : ℕ
  pub base_class : ℕ
  pub header_type : ℕ
  pub multi : ℕ
  pub sub_vender : ℕ
  pub sub_devid : ℕ

-- `config_address` is the port's value; `devices` is the list behind `pci_device_head`, and `nodes` how
-- many more of its nodes `kmalloc` gives.
pub record Pci : Type 0 where
  pub config_address : ℕ
  pub devices : List PciDevice
  pub nodes : ℕ

unfoldable pub is_multi_function : ℕ → ℕ
is_multi_function data' = data' / 0x800000 % 2

unfoldable pub store_pci_device_to_list :
    (bus devfn data' func class header subsystem : ℕ) → Pci → Bool × Pci
store_pci_device_to_list bus devfn data' func class header subsystem s = elim s.nodes [
  | zero ↦ (false, s)
  | suc n ↦ (
    true,
    record s {
      nodes = n;
      devices =
          record {
            bus = bus;
            devfn = devfn;
            func = func;
            vender = data' % 0x10000;
            devid = data' / 0x10000 % 0x10000;
            pg_if = class / 0x100 % 0x100;
            sub_class = class / 0x10000 % 0x100;
            base_class = class / 0x1000000 % 0x100;
            header_type = header / 0x10000 % 0x100 % 0x80;
            multi = header / 0x800000 % 2;
            sub_vender = subsystem % 0x10000;
            sub_devid = subsystem / 0x10000 % 0x10000;
          }
          ∷ s.devices;
    },
  )
]

unfoldable pub write_pci_config_address : PciConfigurationRegister → Pci → Pci
write_pci_config_address reg s = record s {
  config_address =
      reg.enable_bit * 2 ^ 31
      + reg.reserved * 2 ^ 24
      + reg.bus_num * 2 ^ 16
      + reg.dev_num * 2 ^ 11
      + reg.func_num * 2 ^ 8
      + reg.reg_num;
}

unfoldable pub finish_access_to_config_data :
    PciConfigurationRegister → Pci → PciConfigurationRegister × Pci
finish_access_to_config_data reg s =
    let reg' = record reg { enable_bit = 0 } in (reg', write_pci_config_address reg' s)

module _ (config : ℕ → ℕ) where
  -- The data, the register as the call leaves it, and the state.
  unfoldable pub read_pci_data : PciConfigurationRegister → Pci → ℕ × PciConfigurationRegister × Pci
  read_pci_data reg s =
      let reg' = record reg { enable_bit = 1 } in
      let s' = write_pci_config_address reg' s in
      let (reg'', s'') = finish_access_to_config_data reg' s' in
      (config s'.config_address, reg'', s'')

  unfoldable pub pci_data_read : PciDevice → (reg_num : ℕ) → Pci → ℕ × Pci
  pci_data_read pci reg_num s =
      let reg : PciConfigurationRegister = record {
        enable_bit = 0;
        reserved = 0;
        bus_num = pci.bus;
        dev_num = pci.devfn;
        func_num = pci.func;
        reg_num = reg_num;
      } in
      let (data', reg', s') = read_pci_data reg s in (data', s')

  -- `read_pci_reg00`, `read_pci_command_register`, `read_pci_class`, `read_pci_header_type` and
  -- `read_pci_sub_system`, by the register number that each sets.
  unfoldable pub read_pci : ℕ → PciConfigurationRegister → Pci → ℕ × PciConfigurationRegister × Pci
  read_pci number reg s = read_pci_data (record reg { reg_num = number }) s

  -- The loop of `find_pci_data` with so many functions left, from function `i` on. `none` is KERN_ABORT.
  unfoldable pub find_functions : ℕ → (i bus dev : ℕ) → PciConfigurationRegister → Pci → Option Pci
  find_functions zero i bus dev reg s = some s
  find_functions (suc n) i bus dev reg s =
      let (data', reg0, s0) = read_pci 0 (record reg { func_num = i }) s in
      let (class, reg1, s1) = read_pci 0x8 reg0 s0 in
      let (header, reg2, s2) = read_pci 0xc reg1 s1 in
      let (subsystem, reg3, s3) = read_pci 0x2c reg2 s2 in
      let (status, reg4, s4) = read_pci 0x4 reg3 s3 in
      let (b, s5) = store_pci_device_to_list bus dev data' i class header subsystem s4 in
      let skipped = find_functions n (suc i) bus dev reg0 s0 in
      let stored = find_functions n (suc i) bus dev reg4 s5 in
      if data' == 0xffffffff
      then skipped
      else if not b
      then none
      else if (i == 0) && (is_multi_function header == 0)
      then some s5
      else stored

  unfoldable pub find_pci_data : (bus dev : ℕ) → Pci → Option Pci
  find_pci_data bus dev s =
      find_functions 7 0 bus dev
        (record {
          enable_bit = 0;
          reserved = 0;
          bus_num = bus;
          dev_num = dev;
          func_num = 0;
          reg_num = 0;
        })
        s

  -- `for (dev = 0; dev < PCI_DEVICE_MAX; dev++)` with so many rounds left.
  find_devices : ℕ → (bus dev : ℕ) → Pci → Option Pci
  find_devices zero bus dev s = some s
  find_devices (suc n) bus dev s = elim (find_pci_data bus dev s) [
    | none ↦ none
    | some s' ↦ find_devices n bus (suc dev) s'
  ]

  find_buses : ℕ → (bus : ℕ) → Pci → Option Pci
  unfolding find_devices
  find_buses zero bus s = some s
  find_buses (suc n) bus s = elim (find_devices 31 bus 0 s) [
    | none ↦ none
    | some s' ↦ find_buses n (suc bus) s'
  ]

  unfoldable pub find_pci_device : Pci → Option Pci
  unfolding find_buses
  find_pci_device s = find_buses 255 0 s

-- `get_pci_device`, on the list from some node on.
unfoldable pub get_pci_device : (vender device function : ℕ) → List PciDevice → Option PciDevice
get_pci_device vender device function [] = none
get_pci_device vender device function (p ∷ ps) =
    if (p.vender == vender) && (p.devid == device) && (p.func == function)
    then some p
    else get_pci_device vender device function ps
