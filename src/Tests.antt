-- ===== src/Tests.antt =====
-- The theorems at concrete inputs.
mod Memory
mod Timer
mod Cacic
mod Contact
mod Modules
mod Service
mod Gercols
mod Installer
mod Socket
mod Rounds
mod Watch
mod Deploy
mod Clear
mod Collection
mod Setup
mod Computer
mod Windows
