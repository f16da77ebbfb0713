-- ===== src/Examples.antt =====
-- The theorems at concrete inputs.
mod Tasks
mod Pages
mod Strings
mod Devices
mod Kernel
mod Console
mod Commands
mod Boot
mod Network
mod Programs
mod Drivers
