-- ===== src/Tests.antt =====
-- The theorems applied to concrete states.
mod Blocks
mod Pages
mod Texts
mod Devices
mod Volume
mod Disks
mod Images
mod Programs
mod Lines
mod Machines
mod Keys
mod Starts
