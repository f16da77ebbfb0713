-- ===== src/Pci/Laws.antt =====
-- What the scan of kernel/pci.c puts into its list.
use magical_os.Base.{
  ℕ, zero, suc, ◌+◌, ◌*◌, ◌/◌, ◌%◌, ◌^◌, ◌≤◌, ◌≡◌, refl, inl, inr, Bool, false, not, ◌&&◌, List, [],
  ◌∷◌, ◌==◌, if◌then◌else◌, arith, filter, Bool-cases, Returns,
}
use magical_os.Pci.{
  Pci, PciDevice, PciConfigurationRegister, write_pci_config_address, finish_access_to_config_data,
  store_pci_device_to_list, read_pci_data, read_pci, find_functions, find_pci_data,
  is_multi_function,
}

abbrev register : (bus dev func number : ℕ) → ℕ
register bus dev func number =
    1 * 2 ^ 31 + 0 * 2 ^ 24 + bus * 2 ^ 16 + dev * 2 ^ 11 + func * 2 ^ 8 + number

abbrev selected : (enable bus dev func number : ℕ) → PciConfigurationRegister
selected enable bus dev func number = record {
  enable_bit = enable;
  reserved = 0;
  bus_num = bus;
  dev_num = dev;
  func_num = func;
  reg_num = number;
}

abbrev pub state : ℕ → List PciDevice → ℕ → Pci
state a ds k = record { config_address = a; devices = ds; nodes = k }

-- `n` numbers from `i` on.
abbrev from : ℕ → ℕ → List ℕ
from zero i = []
from (suc n) i = i ∷ from n (suc i)

module _ (config : ℕ → ℕ) (bus dev : ℕ) where
  abbrev present : ℕ → Bool
  present f = not (config (register bus dev f 0) == 0xffffffff)

  -- A function's entry, from its registers 0, 8, 0xc and 0x2c.
  abbrev pub entry : ℕ → PciDevice
  entry f = record {
    bus = bus;
    devfn = dev;
    func = f;
    vender = config (register bus dev f 0) % 0x10000;
    devid = config (register bus dev f 0) / 0x10000 % 0x10000;
    pg_if = config (register bus dev f 8) / 0x100 % 0x100;
    sub_class = config (register bus dev f 8) / 0x10000 % 0x100;
    base_class = config (register bus dev f 8) / 0x1000000 % 0x100;
    header_type = config (register bus dev f 0xc) / 0x10000 % 0x100 % 0x80;
    multi = config (register bus dev f 0xc) / 0x800000 % 2;
    sub_vender = config (register bus dev f 0x2c) % 0x10000;
    sub_devid = config (register bus dev f 0x2c) / 0x10000 % 0x10000;
  }

  -- The list with the entries of these functions put before it, one after the other.
  abbrev pub pushed : List ℕ → List PciDevice → List PciDevice
  pushed [] ds = ds
  pushed (f ∷ fs) ds = pushed fs (entry f ∷ ds)

  -- CONFIG_ADDRESS after an access.
  abbrev idle : ℕ → ℕ → ℕ
  idle f number = 0 * 2 ^ 31 + 0 * 2 ^ 24 + bus * 2 ^ 16 + dev * 2 ^ 11 + f * 2 ^ 8 + number

  -- Functions 0 to 6 that answer, or function 0 alone when it answers and is the device's only one.
  abbrev pub functions : List ℕ
  functions =
      if present 0 && (config (register bus dev 0 0xc) / 0x800000 % 2 == 0)
      then 0 ∷ []
      else filter present (from 7 0)

  find_functions-after_first :
      (n i e f r a k : ℕ) (ds : List PciDevice)
      → n ≤ k
      → 1 ≤ i
      → Returns
          (λ s'. s'.devices ≡ pushed (filter present (from n i)) ds)
          (find_functions config n i bus dev (selected e bus dev f r) (state a ds k))
  unfolding find_functions read_pci read_pci_data write_pci_config_address
      finish_access_to_config_data store_pci_device_to_list is_multi_function
  find_functions-after_first zero i e f r a k ds m p = refl
  find_functions-after_first (suc n) i e f r a zero ds m p = absurd (omega arith)
  find_functions-after_first (suc n) i e f r a (suc k) ds m p =
      let later : (i == 0) ≡ false = ground arith in
      elim (Bool-cases (config (register bus dev i 0) == 0xffffffff)) [
        | inl h ↦ rw h (
            find_functions-after_first n (suc i) 0 i 0 (idle i 0) (suc k) ds (omega arith)
              (omega arith))
        | inr h ↦
            rw (h, later)
              (find_functions-after_first n (suc i) 0 i 4 (idle i 4) k (entry i ∷ ds) (omega arith)
                (omega arith))
      ]

  -- With room for seven nodes the scan of a device puts an entry before the list for each of the functions
  -- 0 to 6 that answers, or for function 0 alone when its header says that it is the only one.
  pub find_pci_data_lem :
      (a k : ℕ) (ds : List PciDevice)
      → 7 ≤ k
      → Returns
          (λ s'. s'.devices ≡ pushed functions ds)
          (find_pci_data config bus dev (state a ds k))
  unfolding find_pci_data find_functions read_pci read_pci_data write_pci_config_address
      finish_access_to_config_data store_pci_device_to_list is_multi_function
  find_pci_data_lem a zero ds m = absurd (omega arith)
  find_pci_data_lem a (suc k) ds m =
      elim (Bool-cases (config (register bus dev 0 0) == 0xffffffff)) [
        | inl h ↦
            rw h (
              find_functions-after_first 6 1 0 0 0 (idle 0 0) (suc k) ds (omega arith)
                (omega arith))
        | inr h ↦ elim (Bool-cases (config (register bus dev 0 0xc) / 0x800000 % 2 == 0)) [
          | inl single ↦ rw (h, single) refl
          | inr several ↦
              rw (h, several)
                (find_functions-after_first 6 1 0 0 4 (idle 0 4) k (entry 0 ∷ ds) (omega arith)
                  (omega arith))
        ]
      ]
