-- ===== src/Ata.antt =====
-- kernel/ata.c: the PIO driver. The drive is a parameter: what a read of a port gives after the port
-- operations so far. Waits are operations too, since time passes; printed messages are left out.
pub mod Port
pub mod Init
pub mod Command
pub mod Polling
pub mod Register
use magical_os.Base.{
  ℕ, zero, suc, ◌+◌, ◌*◌, ◌/◌, ◌%◌, Bool, true, false, not, ◌||◌, List, [], ◌∷◌, ◌==◌, ltb,
  if◌then◌else◌,
}
use magical_os.Base.Int.{ℤ, pos, negsuc}
use magical_os.Ata.Port.{
  Drive, State, M, pure, ◌>>=◌, ◌>>◌, inb, inw, outb, outw, wait, data_register, error_register,
  sector_count_register, sector_number_register, cylinder_low_register, cylinder_high_register,
  device_head_register, status_register, alternate_status_register,
}

pub data ReadResult : Type 0 where
  hangs failed : ReadResult
  reads : List ℕ → ReadResult

-- The bits of the status register.
abbrev pub bit : ℕ → ℕ → Bool
bit mask data' = data' / mask % 2 == 1

abbrev pub is_busy : ℕ → Bool
is_busy data' = bit 0x80 data'

abbrev pub is_error : ℕ → Bool
is_error data' = bit 0x01 data'

abbrev pub is_drq_active : ℕ → Bool
is_drq_active data' = bit 0x08 data'

module _ (dev : Drive) where
  -- The two polling loops: at most `n` reads of the port, until one is not busy.
  unfoldable pub poll : (ℕ → Bool) → ℕ → ℕ → M Bool
  poll busy zero port = pure false
  poll busy (suc n) port = do
    status ← inb dev port
    let rest = poll busy n port
    if busy status then rest else pure true

  unfoldable pub wait_until_bsy_and_drq_are_zero : ℕ → M Bool
  wait_until_bsy_and_drq_are_zero port = poll (λ d. is_busy d || is_drq_active d) 1000 port

  unfoldable pub wait_until_bsy_is_zero : ℕ → M Bool
  wait_until_bsy_is_zero port = poll is_busy 1000 port

  -- `data &= 0xf` or `data |= 0x10`
  unfoldable pub set_device_number : ℕ → M (Unit {0})
  set_device_number device = do
    head ← inb dev device_head_register
    let head' = if device == 0 then head % 0x10 else if bit 0x10 head then head else head + 0x10
    outb head' device_head_register
    wait 5

  unfoldable pub do_device_selection_protocol : ℕ → M Bool
  do_device_selection_protocol device = do
    ret ← wait_until_bsy_and_drq_are_zero alternate_status_register
    if ret
        then (do
          set_device_number device
          wait 2
          wait_until_bsy_and_drq_are_zero alternate_status_register)
        else pure false

  unfoldable pub get_drdy : M Bool
  get_drdy = do status ← inb dev status_register; pure (bit 0x40 status)

  unfoldable pub print_error_register : ℕ → M (Unit {0})
  print_error_register device = do
    ret ← do_device_selection_protocol device
    if ret then (do inb dev error_register; pure tt) else pure tt

  unfoldable pub is_device_fault : M Bool
  is_device_fault = do status ← inb dev status_register; pure (bit 0x20 status)

  ready_loop : ℕ → ℕ → M Bool
  ready_loop zero device = pure false
  ready_loop (suc n) device = do
    ret ← do_device_selection_protocol device
    let rest = ready_loop n device
    if ret then pure true else wait 5 >> rest

  unfoldable pub wait_until_device_is_ready : ℕ → M Bool
  unfolding ready_loop
  wait_until_device_is_ready device = ready_loop 5 device

  -- The register writes of `sector_rw_common`, the command's the last.
  unfoldable pub issue_command : ℕ → ℕ → M (Unit {0})
  issue_command cmd sector = do
    outb 0x02 alternate_status_register
    outb 0x00 error_register
    outb (sector % 0x100) sector_number_register
    outb (sector / 0x100 % 0x100) cylinder_low_register
    outb (sector / 0x10000 % 0x100) cylinder_high_register
    outb (sector / 0x1000000 % 0x20 + 0x40) device_head_register
    outb 1 sector_count_register
    outb cmd status_register

  -- The loop at `read_status_register_again`: `loop` lets the status be read seven times.
  unfoldable pub status_loop : ℕ → ℕ → M Bool
  status_loop zero device = pure false
  status_loop (suc n) device = do
    status ← inb dev status_register
    let rest = status_loop n device
    if is_error status
        then print_error_register device >> pure false
        else if is_drq_active status
        then pure true
        else rest

  unfoldable pub sector_rw_common : ℕ → ℕ → ℕ → M Bool
  unfolding status_loop
  sector_rw_common cmd device sector s =
      if ltb s.max_sector sector
      then (false, s)
      else (do
        ready ← wait_until_device_is_ready device
        if ready
            then (do
              issue_command cmd sector
              wait 4
              inb dev alternate_status_register
              status_loop 7 device)
            else pure false)
          s

  unfoldable pub finish_sector_rw : M (Unit {0})
  finish_sector_rw = do inb dev alternate_status_register; inb dev status_register; pure tt

  out_words : List ℕ → M (Unit {0})
  out_words [] = pure tt
  out_words (w ∷ ws) = outw w data_register >> out_words ws

  unfoldable pub in_words : ℕ → M (List ℕ)
  in_words zero = pure []
  in_words (suc n) = do w ← inw dev data_register; ws ← in_words n; pure (w ∷ ws)

  -- The words are `buf[0]` to `buf[buf_size - 1]`.
  unfoldable pub write_sector : ℕ → ℕ → List ℕ → M ℤ
  unfolding out_words
  write_sector device sector buf = do
    ret ← sector_rw_common 0x30 device sector
    if ret then (do finish_sector_rw; out_words buf; pure (pos 0)) else pure (negsuc 0)

  unfoldable pub read_sector : ℕ → ℕ → ℕ → M ReadResult
  read_sector device sector buf_size = if not (buf_size == 256) then pure hangs else do
    ret ← sector_rw_common 0x20 device sector
    if ret then (do buf ← in_words buf_size; finish_sector_rw; pure (reads buf)) else pure failed
