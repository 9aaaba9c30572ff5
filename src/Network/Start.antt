-- ===== src/Network/Start.antt =====
-- cmd/giverny/commands/network/start.go: the network of containers, and the configuration of each node
-- for its container. TOML is the parameter `NodeToml`.
use botcoin.Base.{Text, Bool, not, none, some, List, [], ◌∷◌, ◌==◌, text_eq, if◌then◌else◌}
use botcoin.Base.Bytes.{text}
use botcoin.Base.Bytes.Path.{join_path}
use botcoin.Base.Result.{Error}
use botcoin.Os.{M, pure, ◌>>=◌, ◌>>◌, or_error, fail_if, gets, read_file}
use botcoin.Files.{overwrite_silently, check_if_exists, create_dirs_if_not_exists}
use botcoin.Crypto.Types.{Ethereum}
use botcoin.Docker.{get_docker_client, safe_create_network}
use botcoin.Network.Nodes.{Node}
use botcoin.Network.Config.{NetworkConfig, network_dir}
use botcoin.Network.Toml.{NodeToml}
use botcoin.Network.Push.{push_nodes}
use botcoin.Network.Export.{export_named}

unfoldable pub monet_dir : Text → Text → Text
monet_dir docker_dir moniker = join_path (docker_dir ∷ moniker ∷ text ".monet" ∷ [])

module _ (E : Ethereum) (T : NodeToml) where
  unfoldable pub export_docker_node_config : Text → Text → Node → M (Unit {0})
  export_docker_node_config network docker_dir n =
      if n.moniker == []
      then pure tt
      else export_named E T network (monet_dir docker_dir n.moniker) docker_dir overwrite_silently n

  unfoldable pub export_nodes : Text → Text → List Node → M (Unit {0})
  export_nodes network docker_dir [] = pure tt
  export_nodes network docker_dir (n ∷ nodes) = do
    if n.non_node then pure tt else export_docker_node_config network docker_dir n
    export_nodes network docker_dir nodes

  unfoldable pub export_docker_configs : Text → NetworkConfig → M (Unit {0})
  export_docker_configs config_dir conf = do
    let network = network_dir config_dir conf.name
    create_dirs_if_not_exists (join_path (network ∷ text "docker" ∷ []) ∷ [])
    export_nodes network (join_path (network ∷ text "docker" ∷ [])) conf.nodes

-- The flags of `network start`.
pub record StartFlags : Type 0 where
  pub force_network : Bool
  pub use_existing : Bool
  pub start_nodes : Bool
  pub image_name : Text
  pub image_is_remote : Bool

module _ (E : Ethereum) (T : NodeToml) where
  abbrev start_configured : Text → Text → StartFlags → NetworkConfig → M (Unit {0})
  start_configured config_dir network_name flags conf = do
    fail_if (conf.docker.name == []) Error.not_docker
    get_docker_client
    id ←
        safe_create_network conf.docker.name conf.docker.subnet conf.docker.ip_range
          conf.docker.gateway flags.force_network flags.use_existing
    export_docker_configs E T config_dir conf
    (if flags.start_nodes
        then push_nodes T config_dir network_name conf.nodes flags.image_name flags.image_is_remote
        else pure tt)

  -- A description that does not parse ends the command without an error.
  unfoldable pub start_docker_network : Text → Text → StartFlags → M (Unit {0})
  start_docker_network config_dir network_name flags = do
    let dir = network_dir config_dir network_name
    there ← gets (check_if_exists dir)
    fail_if (not there) Error.no_network_dir
    described ← gets (check_if_exists (join_path (dir ∷ text "network.toml" ∷ [])))
    fail_if (not described) Error.no_network_toml
    toml ← or_error (read_file (join_path (dir ∷ text "network.toml" ∷ []))) Error.toml_read
    elim (T.unmarshal toml) [
      | none ↦ pure tt
      | some conf ↦ start_configured config_dir network_name flags conf
    ]
