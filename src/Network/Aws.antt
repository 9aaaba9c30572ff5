-- ===== src/Network/Aws.antt =====
-- cmd/giverny/commands/network/aws.go: the files of each node of a network, in a folder for AWS.
use botcoin.Base.{Text, not, none, some, List, [], ◌∷◌, ◌==◌, text_eq, if◌then◌else◌}
use botcoin.Base.Bytes.{text}
use botcoin.Base.Bytes.Path.{join_path}
use botcoin.Base.Result.{Error}
use botcoin.Os.{M, pure, ◌>>=◌, ◌>>◌, or_error, fail_if, gets, read_file}
use botcoin.Files.{check_if_exists, create_dirs_if_not_exists}
use botcoin.Crypto.Types.{Ethereum}
use botcoin.Network.Nodes.{Node}
use botcoin.Network.Config.{NetworkConfig, network_dir}
use botcoin.Network.Toml.{NodeToml}
use botcoin.Network.Export.{export_named}

module _ (E : Ethereum) (T : NodeToml) where
  unfoldable pub export_aws_node_config : Text → Text → Node → M (Unit {0})
  export_aws_node_config network out_path n =
      if n.moniker == []
      then pure tt
      else export_named E T network (join_path (out_path ∷ n.moniker ∷ [])) out_path 0 n

  unfoldable pub export_aws_nodes : Text → Text → List Node → M (Unit {0})
  export_aws_nodes network out_path [] = pure tt
  export_aws_nodes network out_path (n ∷ nodes) = do
    if n.non_node then pure tt else export_aws_node_config network out_path n
    export_aws_nodes network out_path nodes

  unfoldable pub export_aws_configs : Text → Text → NetworkConfig → M (Unit {0})
  export_aws_configs config_dir out_path conf = do
    create_dirs_if_not_exists (out_path ∷ [])
    export_aws_nodes (network_dir config_dir conf.name) out_path conf.nodes

  -- A description that does not parse ends the command without an error.
  unfoldable pub build_network_config : Text → Text → Text → M (Unit {0})
  build_network_config config_dir network_name out_path = do
    let dir = network_dir config_dir network_name
    there ← gets (check_if_exists dir)
    fail_if (not there) Error.no_network_dir
    described ← gets (check_if_exists (join_path (dir ∷ text "network.toml" ∷ [])))
    fail_if (not described) Error.no_network_toml
    toml ← or_error (read_file (join_path (dir ∷ text "network.toml" ∷ []))) Error.toml_read
    elim (T.unmarshal toml) [
      | none ↦ pure tt
      | some conf ↦ export_aws_configs config_dir out_path conf
    ]

  unfoldable pub network_aws : Text → Text → Text → M (Unit {0})
  network_aws config_dir network out_path = do
    there ← gets (check_if_exists out_path)
    fail_if (not there) Error.no_output_dir
    build_network_config config_dir network out_path
