-- ===== src/Genesis.antt =====
-- src/genesis: the storage of the POA contract in genesis.json, and the file itself. Keccak-256 is a
-- parameter.
pub mod Storage
pub mod Build
