-- ===== src/Network.antt =====
-- cmd/giverny/commands/network: `giverny network new`, which describes a network and makes its keys,
-- and `build`, which turns the description into the files of Babble and the genesis file.
pub mod Nodes
pub mod Config
pub mod Create
pub mod Toml
pub mod Push
pub mod Stop
pub mod Export
pub mod Start
pub mod Aws
pub mod Dump
pub mod Places
