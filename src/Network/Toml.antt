-- ===== src/Network/Toml.antt =====
-- src/files/toml.go, and what the commands on networks take of go-toml.
use botcoin.Base.{Text, Option, none, some, text_eq}
use botcoin.Base.Result.{Error, Result, ok, err}
use botcoin.Os.{M, lift, ◌>>=◌, or_error, read_file}
use botcoin.Files.{write_to_file}
use botcoin.Network.Config.{NetworkConfig}

pub record DockerNodeConfig : Type 0 where
  pub moniker : Text
  pub net_addr : Text

-- What the commands take of go-toml.
pub record NodeToml : Type 1 where
  pub unmarshal : Text → Option NetworkConfig
  pub marshal_node : DockerNodeConfig → Option Text
  -- what is read of a text, whether or not that ends with an error
  pub unmarshal_node : Text → DockerNodeConfig
  pub Tree : Type 0
  pub load : Text → Option Tree
  pub set_listen : Text → Tree → Tree
  pub to_toml : Tree → Option Text

abbrev pub some_or {ℓ} : {A : Type ℓ} → Option A → Error → Result A
some_or none e = err e
some_or (some a) e = ok a

module _ (T : NodeToml) where
  -- `LoadToml` and `SaveToml`; the error of the latter is dropped by its caller.
  unfoldable pub load_toml : Text → M T.Tree
  load_toml file = do
    content ← or_error (read_file file) Error.toml_read
    lift (some_or (T.load content) Error.toml_parse)

  unfoldable pub save_toml : T.Tree → Text → M (Unit {0})
  save_toml tree file = do
    content ← lift (some_or (T.to_toml tree) Error.toml_parse)
    write_to_file file content 0
