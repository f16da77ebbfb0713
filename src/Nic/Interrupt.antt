-- ===== src/Nic/Interrupt.antt =====
-- kernel/i825xx.c: `i825xx_interrupt_handler`.
use magical_os.Base.{ℕ, ◌^◌, ◌||◌, Option, none, some, List, if◌then◌else◌}
use magical_os.Nic.{
  Op, Nic, reg_ctrl, reg_status, reg_icr, reg_rdh, M, pure, ◌>>=◌, ◌>>◌, write, bit, set_bit,
}
use magical_os.Nic.Device.{read, net_i825xx_phy_read}
use magical_os.Nic.Poll.{net_i825xx_rx_poll}

-- It aborts.
unfoldable pub find_net_device_by_irq : ℕ → Option ℕ
find_net_device_by_irq int_vector = none

module _ (reg : List Op → ℕ → ℕ) (dma : Nic → Nic) where
  -- The registers that the messages on a changed link read.
  unfoldable pub report_link : ℕ → M ℕ
  report_link fuel = do
    read reg reg_status
    net_i825xx_phy_read reg fuel 0
    net_i825xx_phy_read reg fuel 1
    net_i825xx_phy_read reg fuel 17
    net_i825xx_phy_read reg fuel 4
    net_i825xx_phy_read reg fuel 6
    net_i825xx_phy_read reg fuel 9
    net_i825xx_phy_read reg fuel 10
    net_i825xx_phy_read reg fuel 15

  -- `i825xx_interrupt_handler` for a device that was found.
  unfoldable pub serve_interrupt : ℕ → M ℕ
  serve_interrupt fuel = do
    icr ← read reg reg_icr
    if bit (2 ^ 2) icr
        then (do ctrl ← read reg reg_ctrl; write reg_ctrl (set_bit (2 ^ 6) ctrl); report_link fuel)
        else pure 0
    if bit (2 ^ 6) icr || bit (2 ^ 4) icr
        then (do read reg reg_rdh; net_i825xx_rx_poll dma fuel)
        else pure tt
    if bit (2 ^ 7) icr then net_i825xx_rx_poll dma fuel else pure tt
    read reg reg_icr

  unfoldable pub i825xx_interrupt_handler : ℕ → ℕ → M ℕ
  i825xx_interrupt_handler fuel vector s = elim (find_net_device_by_irq vector) [
    | none ↦ none
    | some netdev ↦ serve_interrupt fuel s
  ]
