-- ===== src/Pci/Scan.antt =====
-- The whole scan of kernel/pci.c, and the search of its list.
use magical_os.Base.{
  ℕ, zero, suc, ◌+◌, ◌*◌, ◌/◌, ◌%◌, ◌^◌, ◌≤◌, ◌<◌, ◌≡◌, refl, ap, inl, inr, ◌&&◌, Option, none,
  some, List, [], ◌∷◌, ◌++◌, ◌==◌, arith, if◌then◌else◌, true, false, Bool-cases, Returns,
  Returns-mono,
}
use magical_os.Pci.{
  Pci, PciDevice, PciConfigurationRegister, write_pci_config_address, finish_access_to_config_data,
  store_pci_device_to_list, read_pci_data, read_pci, find_functions, find_pci_data,
  is_multi_function, find_devices, find_buses, find_pci_device, get_pci_device,
}

abbrev pub state : ℕ → List PciDevice → ℕ → Pci
state a ds k = record { config_address = a; devices = ds; nodes = k }

-- Every entry has a function below 7, a device below 31 and a bus below 255.
abbrev pub Ranged : List PciDevice → Type 0
Ranged [] = Unit {0}
Ranged (d ∷ ds) = d.func < 7 × d.devfn < 31 × d.bus < 255 × Ranged ds

-- The scan has gone this far: its entries are in range, and so many nodes are left.
abbrev Good : ℕ → Pci → Type 0
Good m s = Ranged s.devices × m ≤ s.nodes

abbrev register : (reserved bus dev func number : ℕ) → ℕ
register reserved bus dev func number =
    1 * 2 ^ 31 + reserved * 2 ^ 24 + bus * 2 ^ 16 + dev * 2 ^ 11 + func * 2 ^ 8 + number

module _ (config : ℕ → ℕ) where
  Returns-bind :
      {P : Pci → Type 0} (Q : Pci → Type 0) (r : Option Pci) (k : Pci → Option Pci)
      → Returns P r
      → ((s : Pci) → P s → Returns Q (k s))
      → Returns Q (elim r [ none ↦ none | some s ↦ k s ])
  Returns-bind Q none k h next = h
  Returns-bind Q (some s) k h next = next s h

  -- How many of the functions from `i` on answer, of the devices from `dev` on, and of the buses from `bus`
  -- on, with so many to be asked.
  abbrev functions_from : ℕ → (i bus dev reserved : ℕ) → ℕ
  functions_from zero i bus dev reserved = 0
  functions_from (suc n) i bus dev reserved =
      (if config (register reserved bus dev i 0) == 0xffffffff then 0 else 1)
      + functions_from n (suc i) bus dev reserved

  abbrev devices_from : ℕ → (dev bus : ℕ) → ℕ
  devices_from zero dev bus = 0
  devices_from (suc n) dev bus = functions_from 7 0 bus dev 0 + devices_from n (suc dev) bus

  abbrev buses_from : ℕ → ℕ → ℕ
  buses_from zero bus = 0
  buses_from (suc n) bus = devices_from 31 0 bus + buses_from n (suc bus)

  -- How many functions of all that are scanned answer.
  unfoldable pub answering : ℕ
  answering = buses_from 255 0

  functions_from-bound : (n i bus dev reserved : ℕ) → functions_from n i bus dev reserved ≤ n
  functions_from-bound zero i bus dev reserved = omega arith
  functions_from-bound (suc n) i bus dev reserved =
      let rest = functions_from-bound n (suc i) bus dev reserved in ground (arith, rest)

  devices_from-bound : (n dev bus : ℕ) → devices_from n dev bus ≤ n * 7
  devices_from-bound zero dev bus = omega arith
  devices_from-bound (suc n) dev bus =
      omega (arith, functions_from-bound 7 0 bus dev 0, devices_from-bound n (suc dev) bus)

  buses_from-bound : (n bus : ℕ) → buses_from n bus ≤ n * 217
  buses_from-bound zero bus = omega arith
  buses_from-bound (suc n) bus =
      omega (arith, devices_from-bound 31 0 bus, buses_from-bound n (suc bus))

  pub answering-bound : answering ≤ 55335
  unfolding answering
  answering-bound = buses_from-bound 255 0

  skipped_le :
      (n i bus dev reserved m k : ℕ)
      → (config (register reserved bus dev i 0) == 0xffffffff) ≡ true
      → functions_from (suc n) i bus dev reserved + m ≤ k
      → functions_from n (suc i) bus dev reserved + m ≤ k
  skipped_le n i bus dev reserved m k h le = let le' = rw h at le in omega (arith, le')

  stored_le :
      (n i bus dev reserved m k : ℕ)
      → (config (register reserved bus dev i 0) == 0xffffffff) ≡ false
      → functions_from (suc n) i bus dev reserved + m ≤ k
      → functions_from n (suc i) bus dev reserved + m + 1 ≤ k
  stored_le n i bus dev reserved m k h le = let le' = rw h at le in omega (arith, le')

  le_plus_zero : (a k : ℕ) → a ≤ k → a + 0 ≤ k
  le_plus_zero a k le = omega arith

  find_functions-Good :
      (n i bus dev m a k : ℕ) (ds : List PciDevice) (reg : PciConfigurationRegister)
      → i + n ≤ 7
      → dev < 31
      → bus < 255
      → functions_from n i reg.bus_num reg.dev_num reg.reserved + m ≤ k
      → Ranged ds
      → Returns (Good m) (find_functions config n i bus dev reg (state a ds k))
  unfolding find_functions read_pci read_pci_data write_pci_config_address
      finish_access_to_config_data store_pci_device_to_list is_multi_function
  find_functions-Good zero i bus dev m a k ds reg fi d b le g = (g, omega arith)
  find_functions-Good (suc n) i bus dev m a zero ds reg fi d b le g =
      elim (Bool-cases (config (register reg.reserved reg.bus_num reg.dev_num i 0) == 0xffffffff)) [
        | inl h ↦ rw h (
            find_functions-Good n (suc i) bus dev m _ zero ds
              (record reg { enable_bit = 0; func_num = i; reg_num = 0 }) (omega arith) d b
              (skipped_le n i reg.bus_num reg.dev_num reg.reserved m zero h le) g)
        | inr h ↦
            absurd (omega (arith, stored_le n i reg.bus_num reg.dev_num reg.reserved m zero h le))
      ]
  find_functions-Good (suc n) i bus dev m a (suc k) ds reg fi d b le g =
      let below : i < 7 = omega arith in
      let alone =
        (i == 0)
        && (config (register reg.reserved reg.bus_num reg.dev_num i 0xc) / 0x800000 % 2 == 0) in
      elim (Bool-cases (config (register reg.reserved reg.bus_num reg.dev_num i 0) == 0xffffffff)) [
        | inl h ↦ rw h (
            find_functions-Good n (suc i) bus dev m _ (suc k) ds
              (record reg { enable_bit = 0; func_num = i; reg_num = 0 }) (omega arith) d b
              (skipped_le n i reg.bus_num reg.dev_num reg.reserved m (suc k) h le) g)
        | inr h ↦
            let le' = stored_le n i reg.bus_num reg.dev_num reg.reserved m (suc k) h le in
            elim (Bool-cases alone) [
              | inl h' ↦ rw (h, h') ((below, d, b, g), omega (arith, le'))
              | inr h' ↦
                  rw (h, h')
                    (find_functions-Good n (suc i) bus dev m _ k (_ ∷ ds)
                      (record reg { enable_bit = 0; func_num = i; reg_num = 4 }) (omega arith) d b
                      (omega (arith, le')) (below, d, b, g))
            ]
      ]

  find_pci_data-Good :
      (bus dev m : ℕ) (s : Pci)
      → dev < 31
      → bus < 255
      → Good (functions_from 7 0 bus dev 0 + m) s
      → Returns (Good m) (find_pci_data config bus dev s)
  unfolding find_pci_data
  find_pci_data-Good bus dev m s d b g =
      find_functions-Good 7 0 bus dev m s.config_address s.nodes s.devices _ (omega arith) d b g.1
        g.0

  find_devices-Good :
      (n bus dev m : ℕ) (s : Pci)
      → dev + n ≤ 31
      → bus < 255
      → Good (devices_from n dev bus + m) s
      → Returns (Good m) (find_devices config n bus dev s)
  unfolding find_devices
  find_devices-Good zero bus dev m s d b g = (g.0, omega (arith, g.1))
  find_devices-Good (suc n) bus dev m s d b g =
      Returns-bind (Good m) _ _
        (find_pci_data-Good bus dev (devices_from n (suc dev) bus + m) s (omega arith) b
          (g.0, omega (arith, g.1)))
        (λ s' g'. find_devices-Good n bus (suc dev) m s' (omega arith) b g')

  find_buses-Good :
      (n bus m : ℕ) (s : Pci)
      → bus + n ≤ 255
      → Good (buses_from n bus + m) s
      → Returns (Good m) (find_buses config n bus s)
  unfolding find_buses
  find_buses-Good zero bus m s b g = (g.0, omega (arith, g.1))
  find_buses-Good (suc n) bus m s b g =
      Returns-bind (Good m) _ _
        (find_devices-Good 31 bus 0 (buses_from n (suc bus) + m) s (omega arith) (omega arith)
          (g.0, omega (arith, g.1)))
        (λ s' g'. find_buses-Good n (suc bus) m s' (omega arith) g')

  -- From an empty list, with a node for each function that answers, the scan ends without an abort, and no
  -- entry has function 7, device 31 or bus 255.
  pub find_pci_device_lem :
      (a k : ℕ)
      → answering ≤ k
      → Returns (λ s'. Ranged s'.devices) (find_pci_device config (state a [] k))
  unfolding find_pci_device answering
  find_pci_device_lem a k le =
      Returns-mono {P = Good 0} _ (λ s' g. g.0)
        (find_buses-Good 255 0 0 (state a [] k) (omega arith)
          (tt, le_plus_zero (buses_from 255 0) k le))

abbrev Matches : (vender device function : ℕ) → PciDevice → Type 0
Matches vender device function p = p.vender ≡ vender × p.devid ≡ device × p.func ≡ function

abbrev NoMatch : (vender device function : ℕ) → List PciDevice → Type 0
NoMatch v d f [] = Unit {0}
NoMatch v d f (p ∷ ps) = ¬ (Matches v d f p) × NoMatch v d f ps

abbrev pub FirstMatch : (vender device function : ℕ) → List PciDevice → Option PciDevice → Type 0
FirstMatch v d f ps none = NoMatch v d f ps
FirstMatch v d f ps (some p) =
    (before : List PciDevice) × (after : List PciDevice) × (ps ≡ before ++ (p ∷ after))
    × NoMatch v d f before
    × Matches v d f p

FirstMatch-skip :
    (v d f : ℕ) (p : PciDevice) (ps : List PciDevice) (r : Option PciDevice)
    → ¬ (Matches v d f p)
    → FirstMatch v d f ps r
    → FirstMatch v d f (p ∷ ps) r
FirstMatch-skip v d f p ps none n h = (n, h)
FirstMatch-skip v d f p ps (some q) n (before, after, e, none', m) =
    (p ∷ before, after, ap (λ t. p ∷ t) e, (n, none'), m)

-- The answer is the first entry with these three numbers; it is NULL only when there is none.
pub get_pci_device_lem :
    (v d f : ℕ) (ps : List PciDevice) → FirstMatch v d f ps (get_pci_device v d f ps)
unfolding get_pci_device
get_pci_device_lem v d f [] = tt
get_pci_device_lem v d f (p ∷ ps) = elim (Bool-cases (p.vender == v)) [
  | inl hv ↦ elim (Bool-cases (p.devid == d)) [
    | inl hd ↦ elim (Bool-cases (p.func == f)) [
      | inl hf ↦
          rw (hv, hd, hf)
            ([], ps, refl, tt, (ground (arith, hv), ground (arith, hd), ground (arith, hf)))
      | inr hf ↦
          rw (hv, hd, hf)
            (FirstMatch-skip v d f p ps _ (λ m. ground (arith, hf, m.2))
              (get_pci_device_lem v d f ps))
    ]
    | inr hd ↦
        rw (hv, hd)
          (FirstMatch-skip v d f p ps _ (λ m. ground (arith, hd, m.1))
            (get_pci_device_lem v d f ps))
  ]
  | inr hv ↦
      rw hv
        (FirstMatch-skip v d f p ps _ (λ m. ground (arith, hv, m.0)) (get_pci_device_lem v d f ps))
]
