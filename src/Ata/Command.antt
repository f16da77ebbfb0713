-- ===== src/Ata/Command.antt =====
-- What a command of kernel/ata.c leaves in the drive's registers, and when none is sent.
use magical_os.Base.{
  ℕ, ◌<◌, ◌+◌, ◌*◌, ◌/◌, ◌%◌, ◌^◌, true, false, some, List, [], ◌∷◌, ◌≡◌, refl, arith, ltb, ◌==◌,
  if◌then◌else◌,
}
use magical_os.Base.Int.{negsuc}
use magical_os.Ata.Port.{
  Drive, State, Op, in8, in16, out8, out16, waits, sector_number_register, cylinder_low_register,
  cylinder_high_register, device_head_register, sector_count_register, status_register,
}
use magical_os.Ata.Init.{do_identify_device}
use magical_os.Ata.{
  do_device_selection_protocol, get_drdy, bit, issue_command, sector_rw_common, write_sector,
  read_sector, failed,
}

-- The last byte written to a port; 0 when there is none.
pub written : ℕ → List Op → ℕ
written port [] = 0
written port (out8 v p ∷ os) = if p == port then v else written port os
written port (in8 p ∷ os) = written port os
written port (in16 p ∷ os) = written port os
written port (out16 v p ∷ os) = written port os
written port (waits n ∷ os) = written port os

-- The 28-bit address in the registers, as the drive puts it together.
abbrev pub address : List Op → ℕ
address os =
    written sector_number_register os
    + written cylinder_low_register os * 2 ^ 8
    + written cylinder_high_register os * 2 ^ 16
    + written device_head_register os % 2 ^ 4 * 2 ^ 24

abbrev pub ops_of : State → List Op
ops_of s = s.ops

-- For a sector below 2^28 the registers hold that sector, LBA mode, a count of one and the command; bit 4
-- of the head register, which selects the slave, is clear.
pub issue_command_lem :
    (dev : Drive) (cmd sector : ℕ) (s : State)
    → sector < 2 ^ 28
    → let os = ops_of ((issue_command dev cmd sector s).1) in
      address os ≡ sector
      × written device_head_register os / 2 ^ 4 % 2 ≡ 0
      × written device_head_register os / 2 ^ 6 % 2 ≡ 1
      × written sector_count_register os ≡ 1
      × written status_register os ≡ cmd
unfolding issue_command written
issue_command_lem dev cmd sector s b = (omega arith, omega arith, omega arith, refl, refl)

-- Both transfers fail for a sector above the maximum, without touching the drive.
sector_too_large :
    (dev : Drive) (device sector : ℕ) (buf : List ℕ) (s : State)
    → s.max_sector < sector
    → write_sector dev device sector buf s ≡ (negsuc 0, s)
      × read_sector dev device sector 256 s ≡ (failed, s)
unfolding write_sector read_sector sector_rw_common
sector_too_large dev device sector buf s b =
    let e : ltb s.max_sector sector ≡ true = ground arith in (rw e refl, rw e refl)

-- With DRDY clear no IDENTIFY is sent: the answer is true and the buffer is as it was.
identify_not_ready :
    (dev : Drive) (fuel device : ℕ) (buf : List ℕ) (s t : State)
    → (do_device_selection_protocol dev device s).1 ≡ t
    → bit 0x40 (dev t.ops status_register % 0x100) ≡ false
    → do_identify_device dev fuel device buf s ≡ (some (true, buf), (get_drdy dev t).1)
unfolding do_identify_device get_drdy
identify_not_ready dev fuel device buf s t e b = rw (e, b) refl
