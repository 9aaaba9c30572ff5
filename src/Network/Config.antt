-- ===== src/Network/Config.antt =====
-- cmd/giverny/commands/network/build.go: the peers and the accounts of a network, from its nodes. The
-- TOML of `network.toml` is a parameter, `Toml`.
pub mod Peers
pub mod Built
mod Tests
use botcoin.Base.{
  Text, Bool, true, false, not, ◌||◌, ◌&&◌, Option, none, some, List, [], ◌∷◌, ◌++◌, if◌then◌else◌,
}
use botcoin.Base.Dict.{Dict, insert}
use botcoin.Base.Bytes.{text, contains}
use botcoin.Base.Bytes.Path.{join_path}
use botcoin.Base.Result.{Error, Result, ok, err}
use botcoin.Os.{World, M, pure, lift, ◌>>=◌, ◌>>◌, or_error, fail_if, gets, read_file}
use botcoin.Common.{check_moniker}
use botcoin.Files.{write_to_file, overwrite_silently, check_if_exists}
use botcoin.Genesis.Build.{Alloc, AllocRecord, Formats, generate_genesis_json}
use botcoin.Network.Nodes.{Node}

pub record DockerConfig : Type 0 where
  pub name : Text
  pub base_ip : Text
  pub subnet : Text
  pub ip_range : Text
  pub gateway : Text
  pub last_ip : Text

pub record NetworkConfig : Type 0 where
  pub name : Text
  pub docker : DockerConfig
  pub nodes : List Node

pub record Toml : Type 0 where
  pub marshal : NetworkConfig → Option Text
  pub unmarshal : Text → Option NetworkConfig

-- Where giverny keeps its networks.
unfoldable pub network_dir : Text → Text → Text
network_dir config_dir name = join_path (config_dir ∷ text "networks" ∷ name ∷ [])

unfoldable pub with_port : Text → Text
with_port netaddr = if contains b':' netaddr then netaddr else netaddr ++ text ":1337"

unfoldable pub account_of : Node → AllocRecord
account_of n = record { balance = n.tokens; moniker = n.moniker }

module _ (F : Formats) where
  open F use {Peer, new_peer, marshal_peers}

  unfoldable pub peer_of : Node → Peer
  peer_of n = new_peer n.pub_key_hex (with_port n.net_addr) n.moniker

  -- The loop over the nodes: the peers, and the accounts on top of those there are.
  unfoldable pub add_nodes : List Node → List Peer → Alloc → List Peer × Alloc
  add_nodes [] peers alloc = (peers, alloc)
  add_nodes (n ∷ nodes) peers alloc =
      add_nodes nodes (if not n.validator || n.non_node then peers else peers ++ (peer_of n ∷ []))
        (insert n.address (account_of n) alloc)

  unfoldable pub generate_babble_files : Text → List Peer → M (Unit {0})
  generate_babble_files dir peers = do
    write_to_file (join_path (dir ∷ text "peers.json" ∷ [])) (marshal_peers peers)
        overwrite_silently
    write_to_file (join_path (dir ∷ text "peers.genesis.json" ∷ [])) (marshal_peers peers)
        overwrite_silently

  unfoldable pub generate_monet_config : Text → NetworkConfig → Text → M (Unit {0})
  generate_monet_config controller conf dir = do
    generate_babble_files dir (add_nodes conf.nodes [] []).0
    generate_genesis_json F dir [] (add_nodes conf.nodes [] []).0
        (some (add_nodes conf.nodes [] []).1) controller

  module _ (T : Toml) where
    unfoldable pub build_network : Text → Text → Text → M (Unit {0})
    build_network controller config_dir name = do
      fail_if (not (check_moniker name)) Error.network_name_invalid
      there ← gets (check_if_exists (network_dir config_dir name))
      fail_if (not there) Error.no_network_dir
      described ←
          gets
            (check_if_exists (join_path (network_dir config_dir name ∷ text "network.toml" ∷ [])))
      fail_if (not described) Error.no_network_toml
      toml ←
          or_error (read_file (join_path (network_dir config_dir name ∷ text "network.toml" ∷ [])))
            Error.toml_read
      conf ← lift (elim (T.unmarshal toml) [ none ↦ err Error.toml_parse | some c ↦ ok c ])
      generate_monet_config controller conf (network_dir config_dir name)
