-- ===== src/Tests.antt =====
-- The theorems at concrete inputs.
mod Data
mod Strings
mod Files
mod Devices
mod Threads
mod Programs
mod Machine
mod Keys
mod Users
mod Commands
mod Counting
