-- ===== src/Examples.antt =====
-- The theorems at concrete inputs, and runs of the functions.
mod Bits
mod Stores
mod Hosts
mod Choices
mod Reports
mod Taps
mod Scans
mod Pointer
mod Keyboards
mod Tasks
mod Packets
mod Remaps
mod Devices
mod Lamps
