-- ===== src/Tests.antt =====
-- The theorems at concrete inputs.
pub mod Machine
mod NoCmos
mod Folders
mod Insertion
mod Calls
mod Fat
mod Shell
mod Rounds
mod Boot
mod Deletion
mod Drivers
mod Drive
mod Bytes
