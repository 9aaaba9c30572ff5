-- ===== src/Network/Dump.antt =====
-- cmd/giverny/commands/network/dump.go: the lines that `giverny network dump` prints.
use botcoin.Base.{Text, Bool, true, false, not, none, some, List, [], ◌∷◌, map}
use botcoin.Base.Bytes.{text, split, join, trim_space}
use botcoin.Base.Bytes.Path.{join_path}
use botcoin.Base.Result.{Error}
use botcoin.Os.{M, pure, ◌>>=◌, ◌>>◌, or_error, fail_if, gets, read_file}
use botcoin.Common.{check_moniker}
use botcoin.Files.{check_if_exists}
use botcoin.Network.Nodes.{Node}
use botcoin.Network.Config.{network_dir}
use botcoin.Network.Toml.{NodeToml}
use botcoin.Network.Export.{first_part}

abbrev format_bool : Bool → Text
format_bool true = text "true"
format_bool false = text "false"

-- A node, without the port of its address.
unfoldable pub dump_line : Node → Text
dump_line n = join (text "|") (
    n.moniker
    ∷ first_part (split b':' n.net_addr)
    ∷ n.address
    ∷ format_bool n.validator
    ∷ format_bool n.non_node
    ∷ [])

module _ (T : NodeToml) where
  -- A description that does not parse ends the command without an error and without a line.
  unfoldable pub network_dump : Text → Text → M (List Text)
  network_dump config_dir arg = do
    let name = trim_space arg
    fail_if (not (check_moniker name)) Error.network_name_invalid
    there ← gets (check_if_exists (network_dir config_dir name))
    fail_if (not there) Error.no_network_dir
    toml ←
        or_error (read_file (join_path (network_dir config_dir name ∷ text "network.toml" ∷ [])))
          Error.toml_read
    elim (T.unmarshal toml) [ none ↦ pure [] | some conf ↦ pure (map dump_line conf.nodes) ]
