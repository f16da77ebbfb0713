-- ===== src/Examples/Devices.antt =====
-- The theorems on the device drivers.
use magical_os.Base.{ℕ, ◌/◌, ◌%◌, ◌^◌, ◌≡◌, refl, arith, List, [], ◌∷◌, ◌==◌, if◌then◌else◌}
use magical_os.Base.Int.{ℤ, pos}
use magical_os.Block.{Drivers, blk_read_sector}
use magical_os.Block.Laws.{last_sector, blk_read_sector_lem}
use magical_os.Pci.{PciDevice, get_pci_device}
use magical_os.Pci.Laws as Laws
use magical_os.Pci.Scan.{get_pci_device_lem, FirstMatch}
use magical_os.Ata.{issue_command}
use magical_os.Ata.Port.{Drive, State, device_head_register, sector_count_register, status_register}
use magical_os.Ata.Command.{issue_command_lem, written, address, ops_of}

-- One driver, at 20, with the operations at 500.
abbrev drivers : Drivers
drivers = record { next = λ a. if a == 10 then 20 else 10; op = λ a. 500 }

abbrev disk : ℕ → List ℕ
disk s = s ∷ []

abbrev read_disk : ℕ → List ℕ → ℤ × List ℕ
read_disk s b = (pos 0, disk s)

blk_read_sector_lem_example : blk_read_sector read_disk 5 2 [] ≡ (pos 0, last_sector disk 5 2 [])
blk_read_sector_lem_example = blk_read_sector_lem disk read_disk 5 2 [] (λ s b. refl)

-- Function 0 of device 3 on bus 0 answers, and nothing else.
abbrev config : ℕ → ℕ
config a =
    if a == 0x80001800
    then 0x100e8086
    else if a == 0x80001808
    then 0x02000003
    else if a == 0x8000180c
    then 0
    else 0xffffffff

abbrev found : List PciDevice
found = Laws.entry config 0 3 0 ∷ []

get_pci_device_lem_example : FirstMatch 0x8086 0x100e 0 found (get_pci_device 0x8086 0x100e 0 found)
get_pci_device_lem_example = get_pci_device_lem 0x8086 0x100e 0 found

-- A drive that is busy for two operations.
abbrev drive : Drive
drive [] port = 0x80
drive (o ∷ []) port = 0x80
drive (o ∷ p ∷ os) port = 0x40

abbrev start : State
start = record { max_sector = 1000; ops = [] }

issue_command_lem_example :
    let os = ops_of ((issue_command drive 0x20 0x1234567 start).1) in
    address os ≡ 0x1234567
    × written device_head_register os / 2 ^ 4 % 2 ≡ 0
    × written device_head_register os / 2 ^ 6 % 2 ≡ 1
    × written sector_count_register os ≡ 1
    × written status_register os ≡ 0x20
issue_command_lem_example = issue_command_lem drive 0x20 0x1234567 start (omega arith)
