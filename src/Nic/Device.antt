-- ===== src/Nic/Device.antt =====
-- kernel/i825xx.c: the accesses to the device.
use magical_os.Base.{
  ℕ, zero, suc, ◌+◌, ◌*◌, ◌/◌, ◌%◌, ◌^◌, Bool, ◌||◌, none, some, List, ◌∷◌, if◌then◌else◌,
}
use magical_os.Nic.{
  Op, read32, waits, reg_eerd, reg_mdic, reg_rctl, M, pure, ◌>>=◌, ◌>>◌, log, write, bit, set_bit,
}

module _ (reg : List Op → ℕ → ℕ) where
  abbrev pub read : ℕ → M ℕ
  read offset s = some (reg s.ops offset % 2 ^ 32, record s { ops = read32 offset ∷ s.ops })

  -- Until a read of the register passes the test; a wait of one microsecond between two reads.
  unfoldable pub poll_register : (ℕ → Bool) → ℕ → ℕ → M ℕ
  poll_register done zero offset = λ s. none
  poll_register done (suc fuel) offset = do
    tmp ← read offset
    let rest = log (waits 1) >> poll_register done fuel offset
    if done tmp then pure tmp else rest

  unfoldable pub net_i825xx_eeprom_read : ℕ → ℕ → M ℕ
  net_i825xx_eeprom_read fuel addr = do
    write reg_eerd (1 + addr * 2 ^ 8)
    tmp ← poll_register (bit (2 ^ 4)) fuel reg_eerd
    pure (tmp / 2 ^ 16)

  -- MDIC_R or MDIC_E
  abbrev pub answered : ℕ → Bool
  answered mdic = bit (2 ^ 28) mdic || bit (2 ^ 30) mdic

  -- `return -1` as an unsigned short.
  unfoldable pub net_i825xx_phy_read : ℕ → ℕ → M ℕ
  net_i825xx_phy_read fuel regadd = do
    write reg_mdic (regadd % 0x20 * 2 ^ 16 + 2 ^ 21 + 2 ^ 29 + 2 ^ 27)
    poll_register answered fuel reg_mdic
    failed ← read reg_mdic
    if bit (2 ^ 30) failed then pure 0xffff else (do mdic ← read reg_mdic; pure (mdic % 2 ^ 16))

  unfoldable pub net_i825xx_phy_write : ℕ → ℕ → ℕ → M (Unit {0})
  net_i825xx_phy_write fuel regadd value = do
    write reg_mdic (value % 2 ^ 16 + regadd % 0x20 * 2 ^ 16 + 2 ^ 21 + 2 ^ 29 + 2 ^ 26)
    poll_register answered fuel reg_mdic
    read reg_mdic
    pure tt

  unfoldable pub net_i825xx_rx_enable : M (Unit {0})
  net_i825xx_rx_enable = do rctl ← read reg_rctl; write reg_rctl (set_bit (2 ^ 1) rctl)
