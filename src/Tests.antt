-- ===== src/Tests.antt =====
-- Runs of the theorems on one small state of the kernel.
mod Sample
mod Memory
mod Environments
mod Calls
mod Strings
mod Traps
mod Lines
mod Devices
mod Machine
mod Starting
