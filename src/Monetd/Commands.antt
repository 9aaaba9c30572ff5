-- ===== src/Monetd/Commands.antt =====
-- cmd/monetd/commands: the commands for one key (keys/new.go, inspect.go, update.go), the clearing of a
-- configuration (config/clear.go), and how the options are read before a command (root.go). Viper is
-- a parameter.
use botcoin.Base.{Text, Bool, Option, List, [], ◌∷◌, ◌||◌}
use botcoin.Base.Bytes.{text}
use botcoin.Base.Result.{Error, Result, ok, err, panic, hang, ◌>>=◌}
use botcoin.Os.{M, lift}
use botcoin.Files.{safe_rename}
use botcoin.Crypto.{new_keyfile, inspect_key_by_moniker, update_key_by_moniker}
use botcoin.Crypto.Types.{Ethereum}
use botcoin.Configuration.{MonetConfig}
use botcoin.Configuration.Places.{Host, default_monet_dir}

-- What a command shows: a result, or the error that it prints and passes over.
abbrev shown : {A : Type 0} → Result A → Result (Result A)
shown (ok a) = ok (ok a)
shown (err e) = ok (err e)
shown panic = panic
shown hang = hang

abbrev showing : {A : Type 0} → M A → M (Result A)
showing m w = let (r, w') = m w in (shown r, w')

-- The command takes one argument; without it, it is the index that panics.
abbrev with_moniker : {A : Type 0} → List Text → (Text → M (Result A)) → M (Result A)
with_moniker [] command = lift panic
with_moniker (moniker ∷ args) command = command moniker

module _ (E : Ethereum) where
  unfoldable pub new_key : Text → Text → Option E.Key → List Text → M (Result E.Key)
  new_key keystore password_file random args =
      with_moniker args λ moniker. showing (new_keyfile E keystore moniker password_file random)

  unfoldable pub inspect : Text → Text → Bool → List Text → M (Result (Text × Text × Text))
  inspect keystore password_file show_private args =
      with_moniker args
        λ moniker. showing (inspect_key_by_moniker E keystore moniker password_file show_private)

  unfoldable pub update_command : Text → Text → Text → List Text → M (Result (Unit {0}))
  update_command keystore password_file new_password_file args =
      with_moniker args λ moniker.
        showing (update_key_by_moniker E keystore moniker password_file new_password_file)

-- The whole directory is backed up under another name, and so gone.
unfoldable pub clear_config : Host → M (Unit {0})
clear_config host = safe_rename (default_monet_dir host)

-- How reading the file of options ends.
pub data ConfigFile : Type 0 where
  config_read config_not_found config_broken : ConfigFile

pub record Viper : Type 0 where
  pub bind_flags : Result (Unit {0})
  -- the options, set from the flags alone, and from the flags and the file of a directory
  pub from_flags : MonetConfig → Result MonetConfig
  pub read_in_config : Text → Text → ConfigFile
  pub from_all : Text → MonetConfig → Result MonetConfig

abbrev merged : Viper → ConfigFile → MonetConfig → Result MonetConfig
merged V config_read c = V.from_all c.base.config_dir c
merged V config_not_found c = V.from_flags c
merged V config_broken c = err Error.toml_read

-- The file is looked for where the flags say.
unfoldable pub read_config : Viper → MonetConfig → Result MonetConfig
read_config V global = do
  bound ← V.bind_flags
  flagged ← V.from_flags global
  merged V (V.read_in_config (text "monetd") flagged.base.config_dir) flagged

-- The options, and whether debug messages are printed.
unfoldable pub before_command : Viper → MonetConfig → Bool → Result (MonetConfig × Bool)
before_command V global verbose_logging = do
  c ← read_config V global
  ok (c, c.base.verbose || verbose_logging)
