-- ===== src/Pci/Write.antt =====
-- kernel/pci.c: the writes to configuration space. `config` is what a read of a register gives after the
-- writes so far, the newest first, each with the address of its register.
use magical_os.Base.{ℕ, List, ◌∷◌}
use magical_os.Pci.{
  PciConfigurationRegister, PciDevice, Pci, write_pci_config_address, finish_access_to_config_data,
}

pub record Bus : Type 0 where
  pub pci : Pci
  pub writes : List (ℕ × ℕ)

unfoldable pub write_pci_data : PciConfigurationRegister → ℕ → Bus → PciConfigurationRegister × Bus
write_pci_data reg data' b =
    let reg' = record reg { enable_bit = 1 } in
    let s = write_pci_config_address reg' b.pci in
    let (reg'', s') = finish_access_to_config_data reg' s in
    (reg'', record { pci = s'; writes = (s.config_address, data') ∷ b.writes })

unfoldable pub pci_data_write : PciDevice → (reg_num data' : ℕ) → Bus → Bus
unfolding write_pci_data
pci_data_write pci reg_num data' b =
    let reg : PciConfigurationRegister = record {
      enable_bit = 0;
      reserved = 0;
      bus_num = pci.bus;
      dev_num = pci.devfn;
      func_num = pci.func;
      reg_num = reg_num;
    } in
    let (reg', b') = write_pci_data reg data' b in b'
