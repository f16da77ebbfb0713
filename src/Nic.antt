-- ===== src/Nic.antt =====
-- kernel/i825xx.c: the network driver. `reg` is what a read of a device register gives after the operations
-- so far, and `dma` what the device has done to the descriptors by the time the driver looks at one again.
-- The descriptors of a ring are those that `rx_desc` and `tx_desc` point to, by their index. `none` says
-- that a call aborts, or that a loop that waits for the device needs more fuel. Messages are left out, but
-- for the registers that they read. The bits that `|` joins are disjoint, and joined by `+`.
pub mod Device
pub mod Poll
pub mod Interrupt
pub mod Setup
pub mod Ring
use magical_os.Base.{
  ℕ, zero, suc, ◌+◌, ◌-◌, ◌*◌, ◌/◌, ◌%◌, ◌^◌, Bool, true, false, not, ◌||◌, Option, none, some,
  List, [], ◌∷◌, ◌==◌, if◌then◌else◌, update,
}

pub record RxDesc : Type 0 where
  pub address : ℕ
  pub length : ℕ
  pub status : ℕ
  pub errors : ℕ

pub record TxDesc : Type 0 where
  pub address : ℕ
  pub length : ℕ
  pub cmd : ℕ
  pub sta : ℕ

-- Reads and writes of registers by their offset from `mmio_address`, and waits.
pub data Op : Type 0 where
  read32 : ℕ → Op
  write32 : ℕ → ℕ → Op
  waits : ℕ → Op

-- The device with its counters; `ops` has the newest operation first.
pub record Nic : Type 0 where
  pub rx_desc_base : ℕ
  pub rx_desc : ℕ → RxDesc
  pub rx_tail : ℕ
  pub tx_desc_base : ℕ
  pub tx_desc : ℕ → TxDesc
  pub tx_tail : ℕ
  pub rx_count : ℕ
  pub tx_count : ℕ
  pub ops : List Op

abbrev pub num_rx_descriptors : ℕ
num_rx_descriptors = 768

abbrev pub num_tx_descriptors : ℕ
num_tx_descriptors = 768

abbrev pub reg_ctrl : ℕ
reg_ctrl = 0x0

abbrev pub reg_status : ℕ
reg_status = 0x8

abbrev pub reg_eerd : ℕ
reg_eerd = 0x14

abbrev pub reg_mdic : ℕ
reg_mdic = 0x20

-- The interrupt cause register, which the source writes as a number.
abbrev pub reg_icr : ℕ
reg_icr = 0xc0

abbrev pub reg_rctl : ℕ
reg_rctl = 0x100

abbrev pub reg_tctl : ℕ
reg_tctl = 0x400

abbrev pub reg_rdbal : ℕ
reg_rdbal = 0x2800

abbrev pub reg_rdbah : ℕ
reg_rdbah = 0x2804

abbrev pub reg_rdlen : ℕ
reg_rdlen = 0x2808

abbrev pub reg_rdh : ℕ
reg_rdh = 0x2810

abbrev pub reg_rdt : ℕ
reg_rdt = 0x2818

abbrev pub reg_tdbal : ℕ
reg_tdbal = 0x3800

abbrev pub reg_tdbah : ℕ
reg_tdbah = 0x3804

abbrev pub reg_tdlen : ℕ
reg_tdlen = 0x3808

abbrev pub reg_tdh : ℕ
reg_tdh = 0x3810

abbrev pub reg_tdt : ℕ
reg_tdt = 0x3818

abbrev pub M : Type 0 → Type 0
M A = Nic → Option (A × Nic)

abbrev pub pure : {A : Type 0} → A → M A
pure a s = some (a, s)

infixl 5 ◌>>=◌ ◌>>◌
abbrev pub ◌>>=◌ : {A B : Type 0} → M A → (A → M B) → M B
◌>>=◌ m f s = elim (m s) [ none ↦ none | some (a, s') ↦ f a s' ]

abbrev pub ◌>>◌ : {A B : Type 0} → M A → M B → M B
m >> n = m >>= λ _. n

abbrev pub log : Op → M (Unit {0})
log o s = some (tt, record s { ops = o ∷ s.ops })

abbrev pub write : ℕ → ℕ → M (Unit {0})
write offset value = log (write32 offset value)

abbrev pub bit : ℕ → ℕ → Bool
bit mask value = value / mask % 2 == 1

-- `value | mask` for a mask of one bit.
abbrev pub set_bit : ℕ → ℕ → ℕ
set_bit mask value = if bit mask value then value else value + mask
