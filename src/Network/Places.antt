-- ===== src/Network/Places.antt =====
-- cmd/giverny/commands/network/location.go, list.go and status.go: what the commands print, without
-- the labels.
use botcoin.Base.{Text, not, List, [], ◌∷◌}
use botcoin.Base.Dict.{Dict}
use botcoin.Base.Bytes.{text, trim_space}
use botcoin.Base.Bytes.Path.{join_path}
use botcoin.Base.Result.{Error, Result, ok, err, panic, hang}
use botcoin.Os.{M, pure, ◌>>=◌, ◌>>◌, fail_if, gets, read_dir}
use botcoin.Common.{check_moniker}
use botcoin.Files.{check_if_exists}
use botcoin.Docker.{get_docker_client, get_networks, get_containers}
use botcoin.Configuration.Places.{
  peers_json, peers_genesis_json, genesis_json, monet_toml_file, key_store_dir_name,
}
use botcoin.Network.Config.{network_dir}

-- The places of a network, in the order in which they are printed.
abbrev places : Text → Text → Text → List Text
places config_dir name dir =
    name
    ∷ config_dir
    ∷ dir
    ∷ join_path (dir ∷ key_store_dir_name ∷ [])
    ∷ join_path (dir ∷ peers_json ∷ [])
    ∷ join_path (dir ∷ peers_genesis_json ∷ [])
    ∷ join_path (dir ∷ genesis_json ∷ [])
    ∷ join_path (dir ∷ monet_toml_file ∷ [])
    ∷ join_path (dir ∷ text "network.toml" ∷ [])
    ∷ []

unfoldable pub network_location : Text → List Text → M (List Text)
network_location config_dir [] = pure (config_dir ∷ [])
network_location config_dir (arg ∷ args) = do
  let name = trim_space arg
  fail_if (not (check_moniker name)) Error.network_name_invalid
  there ← gets (check_if_exists (network_dir config_dir name))
  fail_if (not there) Error.no_network_dir
  pure (places config_dir name (network_dir config_dir name))

abbrev or_nothing : Result (List Text) → Result (List Text)
or_nothing (ok names) = ok names
or_nothing (err e) = ok []
or_nothing panic = panic
or_nothing hang = hang

-- The error of a directory that cannot be listed is only printed.
unfoldable pub list_networks : Text → M (List Text)
list_networks config_dir w =
    let (r, w') = read_dir (join_path (config_dir ∷ text "networks" ∷ [])) w in (or_nothing r, w')

abbrev containers_or_none : Result (Dict Text) → Result (Dict Text)
containers_or_none (ok cons) = ok cons
containers_or_none (err e) = ok []
containers_or_none panic = panic
containers_or_none hang = hang

abbrev containers_found : M (Dict Text)
containers_found w = let (r, w') = get_containers w in (containers_or_none r, w')

-- A failure to list the containers is taken for their absence.
unfoldable pub network_status : M (Dict Text × Dict Text)
network_status = do
  get_docker_client
  nets ← get_networks
  cons ← containers_found
  pure (nets, cons)
