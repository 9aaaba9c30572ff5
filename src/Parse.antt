-- ===== src/Parse.antt =====
-- cmd/giverny/commands/parse: explaining the storage of the contract in a genesis file.
pub mod Rows
pub mod Arrays
pub mod Elections
pub mod Storage
pub mod Command
pub mod Kept
pub mod Growth
pub mod Mapped
pub mod Explained
pub mod Address
pub mod Counts
pub mod Unnamed
pub mod Named
mod Tests
