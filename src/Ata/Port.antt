-- ===== src/Ata/Port.antt =====
-- Port input and output as a state: the operations so far, newest first, and the driver's variable.
use magical_os.Base.{ℕ, ◌%◌, List, ◌∷◌}

pub data Op : Type 0 where
  in8 in16 : ℕ → Op
  out8 out16 : ℕ → ℕ → Op
  waits : ℕ → Op

-- What a read of a port gives after these operations.
abbrev pub Drive : Type 0
Drive = List Op → ℕ → ℕ

-- `max_sector` is `max_logical_sector_num`.
pub record State : Type 0 where
  pub max_sector : ℕ
  pub ops : List Op

abbrev pub M : Type 0 → Type 0
M A = State → A × State

abbrev pub pure : {A : Type 0} → A → M A
pure a s = (a, s)

infixl 5 ◌>>=◌ ◌>>◌
abbrev pub ◌>>=◌ : {A B : Type 0} → M A → (A → M B) → M B
◌>>=◌ m f s = let (a, s') = m s in f a s'

abbrev pub ◌>>◌ : {A B : Type 0} → M A → M B → M B
◌>>◌ m k = m >>= λ _. k

abbrev pub log : Op → M (Unit {0})
log o s = (tt, record s { ops = o ∷ s.ops })

abbrev pub inb : Drive → ℕ → M ℕ
inb dev port s = (dev s.ops port % 0x100, record s { ops = in8 port ∷ s.ops })

abbrev pub inw : Drive → ℕ → M ℕ
inw dev port s = (dev s.ops port % 0x10000, record s { ops = in16 port ∷ s.ops })

abbrev pub outb : ℕ → ℕ → M (Unit {0})
outb value port = log (out8 value port)

abbrev pub outw : ℕ → ℕ → M (Unit {0})
outw value port = log (out16 value port)

abbrev pub wait : ℕ → M (Unit {0})
wait usec = log (waits usec)

-- DATA_REGISTER to COMMAND_REGISTER, and ALTERNATE_STATUS_REGISTER. FEATURES, COMMAND and DEVICE_CONTROL
-- have the ports of ERROR, STATUS and ALTERNATE_STATUS.
abbrev pub data_register : ℕ
data_register = 0x1f0

abbrev pub error_register : ℕ
error_register = 0x1f1

abbrev pub sector_count_register : ℕ
sector_count_register = 0x1f2

abbrev pub sector_number_register : ℕ
sector_number_register = 0x1f3

abbrev pub cylinder_low_register : ℕ
cylinder_low_register = 0x1f4

abbrev pub cylinder_high_register : ℕ
cylinder_high_register = 0x1f5

abbrev pub device_head_register : ℕ
device_head_register = 0x1f6

abbrev pub status_register : ℕ
status_register = 0x1f7

abbrev pub alternate_status_register : ℕ
alternate_status_register = 0x3f6
