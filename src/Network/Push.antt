-- ===== src/Network/Push.antt =====
-- cmd/giverny/commands/network/push.go: a container for a node, from the image to its start.
pub mod Traced
pub mod Creation
pub mod Calls
mod Tests
use botcoin.Base.{
  Text, Bool, true, false, not, Option, none, some, List, [], ◌∷◌, ◌++◌, ◌==◌, text_eq,
  if◌then◌else◌,
}
use botcoin.Base.Dict.{Dict, lookup}
use botcoin.Base.Bytes.{text, contains, split}
use botcoin.Base.Bytes.Path.{join_path}
use botcoin.Base.Result.{Error, Result, ok, err}
use botcoin.Os.{
  World, M, pure, throw, lift, ◌>>=◌, ◌>>◌, ignore, or_error, fail_if, gets, read_file,
}
use botcoin.Files.{
  write_to_file, overwrite_silently, check_if_exists, create_dirs_if_not_exists, copy_file_contents,
}
use botcoin.Crypto.{get_private_key}
use botcoin.Crypto.Types.{Ethereum}
use botcoin.Docker.{
  get_docker_client, get_networks, get_containers, safe_create_network, create_container_from_image,
  start_container, connect_container_to_network, copy_to,
}
use botcoin.Network.Nodes.{Node}
use botcoin.Network.Config.{NetworkConfig, DockerConfig, network_dir, with_port}
use botcoin.Monetd.{dump_priv_key}
use botcoin.Network.Toml.{NodeToml, DockerNodeConfig, some_or, load_toml, save_toml}

-- A listing whose error the caller looks at.
abbrev pub attempt : {A : Type 0} → M A → M (Result A)
attempt m w = let (r, w') = m w in (ok r, w')

abbrev pub or_empty : {A : Type 0} → Result (Dict A) → Dict A
or_empty (ok d) = d
or_empty _ = []

abbrev pub id_or_empty : Result Text → Text
id_or_empty (ok id) = id
id_or_empty _ = []

-- The container is copied to, connected and started, also where its creation has failed and its
-- identifier is empty: that error is overwritten.
unfoldable pub push_container : Text → Text → Text → Text → Bool → Text → M (Unit {0})
push_container network_id node_name ip image is_remote folder = do
  id ← attempt (create_container_from_image image is_remote node_name (text "run" ∷ []) false)
  copy_to (id_or_empty id) folder (text "/")
  connect_container_to_network network_id (id_or_empty id) ip
  start_container (id_or_empty id)

-- The error of the listing of containers is dropped.
abbrev pub push_to : Option Text → Text → Text → Text → Bool → Text → M (Unit {0})
push_to none node_name ip image is_remote folder = throw Error.docker_network_missing
push_to (some network_id) node_name ip image is_remote folder = do
  containers ← attempt get_containers
  elim (lookup node_name (or_empty containers)) [
    | none ↦ push_container network_id node_name ip image is_remote folder
    | some existing ↦ throw Error.node_exists
  ]

-- When the networks cannot be listed, nothing more is done, and that is no error.
abbrev pub push_with : Result (Dict Text) → Text → Text → Text → Text → Bool → Text → M (Unit {0})
push_with (ok nets) network_name node_name ip image is_remote folder =
    push_to (lookup network_name nets) node_name ip image is_remote folder
push_with _ network_name node_name ip image is_remote folder = pure tt

module _ (T : NodeToml) where
  unfoldable pub push_docker_node : Text → Text → Text → Text → Bool → M (Unit {0})
  push_docker_node config_dir network_name node_name image is_remote = do
    let docker_path = join_path (config_dir ∷ text "networks" ∷ network_name ∷ text "docker" ∷ [])
    let folder = join_path (docker_path ∷ node_name ∷ [])
    let toml_file = join_path (docker_path ∷ (node_name ++ text ".toml") ∷ [])
    there ← gets (check_if_exists docker_path)
    fail_if (not there) Error.no_docker_config
    made ← gets (check_if_exists folder)
    fail_if (not made) Error.no_docker_folder
    described ← gets (check_if_exists toml_file)
    fail_if (not described) Error.no_docker_toml
    content ← or_error (read_file toml_file) Error.toml_read
    get_docker_client
    nets ← attempt get_networks
    push_with nets network_name node_name (T.unmarshal_node content).net_addr image is_remote folder

  unfoldable pub push_nodes : Text → Text → List Node → Text → Bool → M (Unit {0})
  push_nodes config_dir network_name [] image is_remote = pure tt
  push_nodes config_dir network_name (n ∷ nodes) image is_remote = do
    if n.non_node
        then pure tt
        else push_docker_node config_dir network_name n.moniker image is_remote
    push_nodes config_dir network_name nodes image is_remote
