-- ===== src/Examples/Network.antt =====
-- The theorems on the network driver: one packet waits in the last descriptor of the ring, and the first
-- descriptor of the other ring still has the status of an earlier packet.
use magical_os.Base.{◌%◌, ◌<◌, ◌≡◌, ◌≢◌, refl, none, [], arith, ◌==◌, if◌then◌else◌, Returns}
use magical_os.Memory.{Pool}
use magical_os.Nic.{Nic}
use magical_os.Nic.Poll.{queue_packet, count_sent, net_i825xx_rx_poll, net_i825xx_tx_poll}
use magical_os.Nic.Ring.{Received, Pending, rx_poll-Received, tx_poll_stale}
use magical_os.Nic.Setup.{net_i825xx_rx_init, net_i825xx_tx_init, allocate_device, set_up_aborts}

abbrev device : Nic
device = record {
  rx_desc_base = 0;
  rx_desc =
      λ i. record { address = 0; length = 64; status = if i == 767 then 3 else 0; errors = 0 };
  rx_tail = 767;
  tx_desc_base = 0;
  tx_desc = λ i. record { address = 0; length = 0; cmd = 0; sta = if i == 0 then 1 else 0 };
  tx_tail = 0;
  rx_count = 0;
  tx_count = 768;
  ops = [];
}

device-Pending : Pending 1 device
device-Pending = record {
  most = omega arith;
  tail = omega arith;
  done = λ k lt. let z : k ≡ 0 = omega arith in rw z refl;
  stop = λ lt. refl;
}

rx_poll-Received_example :
    Returns (λ r. Received 1 device r.1) (net_i825xx_rx_poll (λ t. t) 2 device)
rx_poll-Received_example =
    rx_poll-Received 1 2 (λ t. t) device (λ t. refl) device-Pending (omega arith)

tx_poll_stale_example :
    (1 % 0x10 ≡ 0 → net_i825xx_tx_poll (λ t. t) 1 0x5000 64 device ≡ none)
    × (1 % 0x10 ≢ 0
        → 0 < 1
        → net_i825xx_tx_poll (λ t. t) 1 0x5000 64 device
          ≡ count_sent (queue_packet 0x5000 64 device))
tx_poll_stale_example = tx_poll_stale 1 0x5000 64 (λ t. t) device (λ t. refl)

abbrev page_taken : Pool
page_taken = record { total = 100; top = 0x100000; table = [] }

set_up_aborts_example :
    (net_i825xx_rx_init 0 (page_taken, device) ≡ none)
    × (net_i825xx_tx_init 0 (page_taken, device) ≡ none)
    × (allocate_device 0 page_taken ≡ none)
set_up_aborts_example =
    set_up_aborts 0 page_taken device
      (record { page = omega arith; room = omega arith; used = omega arith })
