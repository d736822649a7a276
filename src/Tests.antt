-- ===== src/Tests.antt =====
-- The theorems at concrete inputs, and runs of the code.
mod Fixture
mod Setting
mod Auth
mod Data
mod Uploads
mod Lapse
mod Queries
mod Erasures
mod Erase
mod Export
mod Published
mod Sweep
mod Boot
mod Register
