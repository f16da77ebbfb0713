-- ===== src/Nic/Ring.antt =====
-- The receive and the transmit ring when the device adds nothing while the driver looks.
use magical_os.Base.{
  List, ◌∷◌, ℕ, zero, suc, ◌+◌, ◌%◌, ◌^◌, ◌<◌, ◌≤◌, ◌≡◌, ◌≢◌, refl, sym, ap, ◌∙◌, inl, inr, true,
  false, Bool-cases, none, some, ◌∷◌, arith, ◌==◌, Returns, Returns-some, ltb,
}
use magical_os.Nic.{Op, write32, reg_rdt, Nic, waits, ◌>>◌, ◌>>=◌, bit, num_rx_descriptors}
use magical_os.Nic.Poll.{
  rx_packet, net_i825xx_rx_poll, wait_sent, queue_packet, count_sent, net_i825xx_tx_poll,
}

-- The writes of `n` tails, one after the other, each of which gives the device one more descriptor.
abbrev pub tails : ℕ → ℕ → List Op → List Op
tails zero tail ops = ops
tails (suc n) tail ops =
    let next = (tail + 1) % num_rx_descriptors in tails n next (write32 reg_rdt next ∷ ops)

-- `n` packets from the tail on were taken: their descriptors are cleared and given back to the device
-- one by one, and nothing else changed but the tail and the count.
pub record Received (n : ℕ) (s s' : Nic) : Type 0 where
  pub tail : s'.rx_tail ≡ (s.rx_tail + n) % num_rx_descriptors
  pub count : s'.rx_count % 2 ^ 32 ≡ (s.rx_count + n) % 2 ^ 32
  pub given : (k : ℕ) → k < n → (s'.rx_desc ((s.rx_tail + k) % num_rx_descriptors)).status ≡ 0
  pub others :
      (i : ℕ)
      → ((k : ℕ) → k < n → i ≢ (s.rx_tail + k) % num_rx_descriptors)
      → s'.rx_desc i ≡ s.rx_desc i
  pub device : s'.ops ≡ tails n s.rx_tail s.ops
  pub transmit : (s'.tx_desc ≡ s.tx_desc) × (s'.tx_tail ≡ s.tx_tail) × (s'.tx_count ≡ s.tx_count)

-- The next `n` descriptors are pending, and the one behind them is not, if there is one.
pub record Pending (n : ℕ) (s : Nic) : Type 0 where
  pub most : n ≤ num_rx_descriptors
  pub tail : s.rx_tail < num_rx_descriptors
  pub done :
      (k : ℕ) → k < n → bit 1 (s.rx_desc ((s.rx_tail + k) % num_rx_descriptors)).status ≡ true
  pub stop :
      n < num_rx_descriptors
      → bit 1 (s.rx_desc ((s.rx_tail + n) % num_rx_descriptors)).status ≡ false

rx_packet-at : (s : Nic) → ((rx_packet s).rx_desc s.rx_tail).status ≡ 0
unfolding rx_packet
rx_packet-at s = let t : (s.rx_tail == s.rx_tail) ≡ true = ground arith in rw t refl

rx_packet-other : (s : Nic) (i : ℕ) → i ≢ s.rx_tail → (rx_packet s).rx_desc i ≡ s.rx_desc i
unfolding rx_packet
rx_packet-other s i ne = let f : (s.rx_tail == i) ≡ false = ground arith in rw f refl

-- The descriptor `k` behind the tail of the state after a packet.
shifted :
    (s : Nic) (k : ℕ)
    → ((rx_packet s).rx_tail + k) % num_rx_descriptors ≡ (s.rx_tail + suc k) % num_rx_descriptors
unfolding rx_packet
shifted s k = omega arith

apart_from_tail :
    (tail k : ℕ)
    → tail < num_rx_descriptors
    → suc k < num_rx_descriptors
    → (tail + suc k) % num_rx_descriptors ≢ tail
apart_from_tail tail k lt le = omega arith

rx_packet-tail : (s : Nic) → (rx_packet s).rx_tail ≡ (s.rx_tail + 1) % num_rx_descriptors
unfolding rx_packet
rx_packet-tail s = refl

-- The status of a descriptor that is behind the tail, after a packet.
status_behind :
    (s : Nic) (k : ℕ)
    → s.rx_tail < num_rx_descriptors
    → suc k < num_rx_descriptors
    → (rx_packet s).rx_desc (((rx_packet s).rx_tail + k) % num_rx_descriptors)
      ≡ s.rx_desc ((s.rx_tail + suc k) % num_rx_descriptors)
status_behind s k lt le =
    ap (rx_packet s).rx_desc (shifted s k)
    ∙ rx_packet-other s ((s.rx_tail + suc k) % num_rx_descriptors)
        (apart_from_tail s.rx_tail k lt le)

-- Once around the ring, the descriptor at the tail is the one that was given back first.
around :
    (s : Nic) (k : ℕ)
    → s.rx_tail < num_rx_descriptors
    → suc k ≡ num_rx_descriptors
    → ((rx_packet s).rx_desc (((rx_packet s).rx_tail + k) % num_rx_descriptors)).status ≡ 0
around s k lt e =
    let same : ((rx_packet s).rx_tail + k) % num_rx_descriptors ≡ s.rx_tail =
      shifted s k ∙ omega arith in
    ap (λ i. ((rx_packet s).rx_desc i).status) same ∙ rx_packet-at s

Pending-next : (n : ℕ) (s : Nic) → Pending (suc n) s → Pending n (rx_packet s)
Pending-next n s v = record {
  most = omega (arith, v.most);
  tail = omega (arith, rx_packet-tail s);
  done = λ k lt.
      ap (λ d. bit 1 d.status) (status_behind s k v.tail (omega (arith, v.most)))
      ∙ v.done (suc k) (omega arith);
  stop = λ lt. elim (Bool-cases (ltb (suc n) num_rx_descriptors)) [
    | inl e ↦
        let le : suc n < num_rx_descriptors = ground arith in
        ap (λ d. bit 1 d.status) (status_behind s n v.tail le) ∙ v.stop le
    | inr e ↦ ap (bit 1) (around s n v.tail (ground (arith, v.most)))
  ];
}

given-next :
    (n : ℕ) (s s' : Nic)
    → s.rx_tail < num_rx_descriptors
    → suc n ≤ num_rx_descriptors
    → Received n (rx_packet s) s'
    → (k : ℕ) → k < suc n
    → (s'.rx_desc ((s.rx_tail + k) % num_rx_descriptors)).status ≡ 0
given-next n s s' lt le v zero l =
    let at : (s.rx_tail + zero) % num_rx_descriptors ≡ s.rx_tail = omega arith in
    ap (λ i. (s'.rx_desc i).status) at
    ∙ ap (λ d. d.status)
        (v.others s.rx_tail
          (λ k m e. apart_from_tail s.rx_tail k lt (omega arith) (sym (e ∙ shifted s k))))
    ∙ rx_packet-at s
given-next n s s' lt le v (suc k) l =
    sym (ap (λ i. (s'.rx_desc i).status) (shifted s k)) ∙ v.given k (omega arith)

Received-next :
    (n : ℕ) (s s' : Nic)
    → s.rx_tail < num_rx_descriptors
    → suc n ≤ num_rx_descriptors
    → Received n (rx_packet s) s'
    → Received (suc n) s s'
unfolding rx_packet
Received-next n s s' lt le v = record {
  tail = omega (arith, v.tail);
  count = omega (arith, v.count);
  given = given-next n s s' lt le v;
  others = λ i out.
      v.others i (λ k l e. out (suc k) (omega arith) (e ∙ shifted s k))
      ∙ rx_packet-other s i (λ e. out 0 (omega arith) (omega (arith, lt)));
  device = v.device;
  transmit = v.transmit;
}

-- When the device is quiet and `n` packets are pending, the loop returns with fuel for more than `n`
-- rounds: it takes these packets, clears their descriptors and gives them back by the tail register,
-- and leaves the other descriptors and the transmit ring as they are.
pub rx_poll-Received :
    (n fuel : ℕ) (dma : Nic → Nic) (s : Nic)
    → ((t : Nic) → dma t ≡ t)
    → Pending n s
    → n < fuel
    → Returns (λ r. Received n s r.1) (net_i825xx_rx_poll dma fuel s)
unfolding net_i825xx_rx_poll
rx_poll-Received n zero dma s quiet v lt = elim lt [ ]
rx_poll-Received zero (suc fuel) dma s quiet v lt =
    let at : (s.rx_tail + zero) % num_rx_descriptors ≡ s.rx_tail = omega (arith, v.tail) in
    let stop = sym (ap (λ i. bit 1 (s.rx_desc i).status) at) ∙ v.stop (omega arith) in
    rw (quiet s, stop)
      (record {
        tail = omega (arith, v.tail);
        count = omega arith;
        given = λ k l. elim l [ ];
        others = λ i out. refl;
        device = refl;
        transmit = (refl, refl, refl);
      })
rx_poll-Received (suc n) (suc fuel) dma s quiet v lt =
    let at : (s.rx_tail + zero) % num_rx_descriptors ≡ s.rx_tail = omega (arith, v.tail) in
    let go = sym (ap (λ i. bit 1 (s.rx_desc i).status) at) ∙ v.done zero (omega arith) in
    let (r, e, got) =
      Returns-some (net_i825xx_rx_poll dma fuel (rx_packet s))
        (rx_poll-Received n fuel dma (rx_packet s) quiet (Pending-next n s v) (omega arith)) in
    rw (quiet s, go, e) (Received-next n s r.1 v.tail v.most got)

wait_sent-stuck :
    (fuel i : ℕ) (dma : Nic → Nic) (s : Nic)
    → ((t : Nic) → dma t ≡ t)
    → (s.tx_desc i).sta % 0x10 ≡ 0
    → wait_sent dma fuel i s ≡ none
unfolding wait_sent
wait_sent-stuck zero i dma s quiet e = refl
wait_sent-stuck (suc fuel) i dma s quiet e =
    rw (quiet s, e) (wait_sent-stuck fuel i dma (record s { ops = waits 1 ∷ s.ops }) quiet e)

wait_sent-now :
    (fuel i : ℕ) (dma : Nic → Nic) (s : Nic)
    → ((t : Nic) → dma t ≡ t)
    → (s.tx_desc i).sta % 0x10 ≢ 0
    → 0 < fuel
    → wait_sent dma fuel i s ≡ some (tt, s)
unfolding wait_sent
wait_sent-now zero i dma s quiet ne lt = elim lt [ ]
wait_sent-now (suc fuel) i dma s quiet ne lt =
    let f : ((s.tx_desc i).sta % 0x10 == 0) ≡ false = ground arith in rw (quiet s, f) refl

queue_packet-sta :
    (pkt length : ℕ) (s : Nic)
    → ((queue_packet pkt length s).tx_desc s.tx_tail).sta ≡ (s.tx_desc s.tx_tail).sta
unfolding queue_packet
queue_packet-sta pkt length s = let t : (s.tx_tail == s.tx_tail) ≡ true = ground arith in rw t refl

-- A device that does nothing at all: with a clear status in the tail's descriptor the driver waits for
-- ever, and with one that is left from an earlier packet it counts the packet as sent and returns at once.
pub tx_poll_stale :
    (fuel pkt length : ℕ) (dma : Nic → Nic) (s : Nic)
    → ((t : Nic) → dma t ≡ t)
    → ((s.tx_desc s.tx_tail).sta % 0x10 ≡ 0 → net_i825xx_tx_poll dma fuel pkt length s ≡ none)
      × ((s.tx_desc s.tx_tail).sta % 0x10 ≢ 0
          → 0 < fuel
          → net_i825xx_tx_poll dma fuel pkt length s ≡ count_sent (queue_packet pkt length s))
unfolding net_i825xx_tx_poll
tx_poll_stale fuel pkt length dma s quiet = (
  λ e.
      rw
        (
          ◌>>◌,
          ◌>>=◌,
          wait_sent-stuck fuel s.tx_tail dma (queue_packet pkt length s) quiet
              (ap (λ n. n % 0x10) (queue_packet-sta pkt length s) ∙ e),
        )
        refl,
  λ ne lt.
      rw
        (
          ◌>>◌,
          ◌>>=◌,
          wait_sent-now fuel s.tx_tail dma (queue_packet pkt length s) quiet
              (λ e. ne (sym (ap (λ n. n % 0x10) (queue_packet-sta pkt length s)) ∙ e)) lt,
        )
        refl,
)
