-- ===== src/Nic/Poll.antt =====
-- kernel/i825xx.c: `net_i825xx_rx_poll` and `net_i825xx_tx_poll`.
use magical_os.Base.{ℕ, zero, suc, ◌+◌, ◌%◌, ◌^◌, none, some, ◌∷◌, ◌==◌, if◌then◌else◌, update}
use magical_os.Nic.{
  write32, waits, Nic, num_rx_descriptors, num_tx_descriptors, reg_rdt, reg_tdt, M, ◌>>◌, bit,
}

-- The body of the loop of `net_i825xx_rx_poll`: whatever the packet, it is counted and given back.
unfoldable pub rx_packet : Nic → Nic
rx_packet s =
    let tail = (s.rx_tail + 1) % num_rx_descriptors in
    record s {
      rx_count = (s.rx_count + 1) % 2 ^ 32;
      rx_desc = update s.rx_desc s.rx_tail (record (s.rx_desc s.rx_tail) { status = 0 });
      rx_tail = tail;
      ops = write32 reg_rdt tail ∷ s.ops;
    }

-- The descriptor and the tail for a packet.
unfoldable pub queue_packet : ℕ → ℕ → Nic → Nic
queue_packet pkt length s =
    let tail = (s.tx_tail + 1) % num_tx_descriptors in
    let desc = record (s.tx_desc s.tx_tail) { address = pkt; length = length; cmd = 2 ^ 3 + 3 } in
    record s {
      tx_desc = update s.tx_desc s.tx_tail desc;
      tx_tail = tail;
      ops = write32 reg_tdt tail ∷ s.ops;
    }

abbrev pub count_sent : M (Unit {0})
count_sent s = some (tt, record s { tx_count = (s.tx_count + 1) % 2 ^ 32 })

module _ (dma : Nic → Nic) where
  unfoldable pub net_i825xx_rx_poll : ℕ → M (Unit {0})
  net_i825xx_rx_poll zero s = none
  net_i825xx_rx_poll (suc fuel) s =
      let seen = dma s in
      let rest = net_i825xx_rx_poll fuel (rx_packet seen) in
      if bit 1 (seen.rx_desc seen.rx_tail).status then rest else some (tt, seen)

  -- The loop that waits for the status of the descriptor `i`.
  unfoldable pub wait_sent : ℕ → ℕ → M (Unit {0})
  wait_sent zero i s = none
  wait_sent (suc fuel) i s =
      let seen = dma s in
      let rest = wait_sent fuel i (record seen { ops = waits 1 ∷ seen.ops }) in
      if (seen.tx_desc i).sta % 0x10 == 0 then rest else some (tt, seen)

  unfoldable pub net_i825xx_tx_poll : ℕ → ℕ → ℕ → M (Unit {0})
  net_i825xx_tx_poll fuel pkt length s =
      (wait_sent fuel s.tx_tail >> count_sent) (queue_packet pkt length s)
