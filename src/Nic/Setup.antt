-- ===== src/Nic/Setup.antt =====
-- kernel/i825xx.c: the functions that set the driver up.
use magical_os.Base.{
  ℕ, zero, suc, ◌+◌, ◌-◌, ◌*◌, ◌%◌, ◌^◌, Option, none, some, List, ◌∷◌, ◌==◌, if◌then◌else◌, update,
  ◌≡◌, refl, inl, inr, arith, ltb, Bool-cases,
}
use magical_os.Memory.{Pool, kmalloc, page_size}
use magical_os.Memory.Kmalloc.{IsPool, kmalloc_lem}
use magical_os.Nic.{
  TxDesc, Op, read32, write32, Nic, num_rx_descriptors, num_tx_descriptors, reg_rctl, reg_tctl,
  reg_rdbal, reg_rdbah, reg_rdlen, reg_rdh, reg_rdt, reg_tdbal, reg_tdbah, reg_tdlen, reg_tdh,
  reg_tdt,
}

-- `tmpbase % 16 ? tmpbase + 16 - tmpbase % 16 : tmpbase`
abbrev pub aligned : ℕ → ℕ
aligned tmpbase = if tmpbase % 16 == 0 then tmpbase else tmpbase + 16 - tmpbase % 16

-- The buffers of the receive descriptors from `i` on, with so many rounds left.
unfoldable pub rx_buffers : ℕ → ℕ → ℕ → Pool × Nic → Option (Pool × Nic)
rx_buffers past zero i s = some s
rx_buffers past (suc n) i (pool, s) = elim (kmalloc past (8192 + 16) pool) [
  | none ↦ none
  | some (buffer, pool') ↦
      let desc = record (s.rx_desc i) { address = buffer; status = 0 } in
      rx_buffers past n (i + 1) (pool', record s { rx_desc = update s.rx_desc i desc })
]

-- The operations of the two functions behind their loops, the newest first.
abbrev pub rx_registers : ℕ → List Op → List Op
rx_registers base ops =
    write32 reg_rctl (2 ^ 2 + 2 ^ 3 + 2 ^ 4 + 2 ^ 26 + 2 ^ 5 + 2 ^ 15 + 2 * 2 ^ 16 + 2 ^ 25)
    ∷ write32 reg_rdt num_rx_descriptors
    ∷ write32 reg_rdh 0
    ∷ write32 reg_rdlen (num_rx_descriptors * 16)
    ∷ read32 reg_rdbal
    ∷ read32 reg_rdbah
    ∷ write32 reg_rdbal base
    ∷ write32 reg_rdbah 0
    ∷ ops

abbrev pub finish_rx : Pool × Nic → Pool × Nic
finish_rx (pool, s) = (pool, record s { rx_tail = 0; ops = rx_registers s.rx_desc_base s.ops })

unfoldable pub net_i825xx_rx_init : ℕ → Pool × Nic → Option (Pool × Nic)
net_i825xx_rx_init past (pool, s) = elim (kmalloc past (16 * num_rx_descriptors + 16) pool) [
  | none ↦ none
  | some (tmpbase, pool') ↦
      elim (rx_buffers past num_rx_descriptors 0
        (pool', record s { rx_desc_base = aligned tmpbase })) [
          | none ↦ none
          | some r ↦ some (finish_rx r)
        ]
]

unfoldable pub clear_tx : ℕ → ℕ → (ℕ → TxDesc) → ℕ → TxDesc
clear_tx zero i desc = desc
clear_tx (suc n) i desc =
    clear_tx n (i + 1) (update desc i (record (desc i) { address = 0; cmd = 0 }))

abbrev pub tx_registers : ℕ → List Op → List Op
tx_registers base ops =
    write32 reg_tctl (2 ^ 1 + 2 ^ 3)
    ∷ write32 reg_tdt num_tx_descriptors
    ∷ write32 reg_tdh 0
    ∷ write32 reg_tdlen (num_tx_descriptors * 16)
    ∷ read32 reg_tdbal
    ∷ read32 reg_tdbah
    ∷ write32 reg_tdbal base
    ∷ write32 reg_tdbah 0
    ∷ ops

unfoldable pub net_i825xx_tx_init : ℕ → Pool × Nic → Option (Pool × Nic)
net_i825xx_tx_init past (pool, s) = elim (kmalloc past (16 * num_tx_descriptors + 16) pool) [
  | none ↦ none
  | some (tmpbase, pool') ↦ some (
    pool',
    record s {
      tx_desc_base = aligned tmpbase;
      tx_desc = clear_tx num_tx_descriptors 0 s.tx_desc;
      tx_tail = 0;
      ops = tx_registers (aligned tmpbase) s.ops;
    },
  )
]

-- `sizeof(net_device_t)` and `sizeof(i825xx_device_t)` on this machine.
abbrev pub sizeof_net_device : ℕ
sizeof_net_device = 52

abbrev pub sizeof_device : ℕ
sizeof_device = 6172

-- The two structures that `net_i825xx_init` asks for, and the pool after them.
unfoldable pub allocate_device : ℕ → Pool → Option (ℕ × ℕ × Pool)
allocate_device past pool = elim (kmalloc past sizeof_net_device pool) [
  | none ↦ none
  | some (netdev, pool1) ↦ elim (kmalloc past sizeof_device pool1) [
    | none ↦ none
    | some (dev, pool2) ↦ some (netdev, dev, pool2)
  ]
]

-- It aborts.
unfoldable pub pci_resolve_bar : ℕ → Option ℕ
pci_resolve_bar val = none

-- `net_i825xx_init`: what stands behind `pci_resolve_bar` is not reached.
unfoldable pub net_i825xx_init : ℕ → Pool → Option ℕ
net_i825xx_init past pool = elim (allocate_device past pool) [
  | none ↦ none
  | some r ↦ pci_resolve_bar 0
]

allocate_device-none : (past : ℕ) (k : Pool) → IsPool k → allocate_device past k ≡ none
unfolding allocate_device
allocate_device-none past k v =
    let first = kmalloc_lem past sizeof_net_device k v (omega (arith, v.used)) in
    elim (Bool-cases (ltb page_size (k.total + sizeof_net_device))) [
      | inl e ↦ rw (allocate_device, first.1 (ground arith)) refl
      | inr e ↦
          let some_page = first.0 (ground arith) in
          let second =
            kmalloc_lem past sizeof_device (record k { total = k.total + sizeof_net_device })
              some_page.1 (omega (arith, v.used)) in
          rw (allocate_device, some_page.0, second.1 (omega arith)) refl
    ]

-- Once `kmalloc` has its page, the two functions that set up the rings abort, and `net_i825xx_init` aborts
-- in its two requests for memory, before it asks for the device's address.
pub set_up_aborts :
    (past : ℕ) (k : Pool) (s : Nic)
    → IsPool k
    → (net_i825xx_rx_init past (k, s) ≡ none)
      × (net_i825xx_tx_init past (k, s) ≡ none)
      × (allocate_device past k ≡ none)
unfolding net_i825xx_rx_init net_i825xx_tx_init
set_up_aborts past k s v =
    let ring =
      (kmalloc_lem past (16 * num_rx_descriptors + 16) k v (omega (arith, v.used))).1
        (omega arith) in
    (
      rw (net_i825xx_rx_init, ring) refl,
      rw (net_i825xx_tx_init, ring) refl,
      allocate_device-none past k v,
    )
