-- ===== src/Monetd/Pull.antt =====
-- cmd/monetd/commands/config/pull.go: joining a network from a node that runs, with `getDefaultKey` of
-- config.go and `ShowIPWarnings` of utils.go there. The text of monetd.toml is a parameter.
mod Tests
pub mod Fetched
pub mod Places
pub mod Serving
pub mod Chosen
pub mod Joined
use botcoin.Base.{
  Text, ◌-◌, Bool, true, false, not, ◌&&◌, List, [], ◌∷◌, ◌++◌, ◌==◌, text_eq, nat_eq,
  if◌then◌else◌, length, take,
}
use botcoin.Base.Bytes.{text}
use botcoin.Base.Bytes.Path.{join_path, ext}
use botcoin.Base.Result.{Error, Result, ok, err}
use botcoin.Os.{M, pure, lift, ◌>>=◌, ◌>>◌, ignore, read_dir}
use botcoin.Common.{check_ip}
use botcoin.Files.{download_file}
use botcoin.Crypto.Types.{Ethereum}
use botcoin.Monetd.{get_key, create_monet_config_folders, dump_priv_key, dump_global_toml}

-- The names of the key files in a listing, without `.json`.
unfoldable pub key_monikers : List Text → List Text
key_monikers [] = []
key_monikers (name ∷ names) =
    let rest = key_monikers names in
    if ext name == text ".json" then take (length name - 5) name ∷ rest else rest

abbrev only_key : List Text → Result Text
only_key [] = err Error.no_keys
only_key (moniker ∷ []) = ok moniker
only_key (moniker ∷ other ∷ monikers) = err Error.ambiguous_key

unfoldable pub get_default_key : Text → M Text
get_default_key keystore = do names ← read_dir keystore; lift (only_key (key_monikers names))

abbrev key_or_default : Text → Text → M Text
key_or_default keystore [] = get_default_key keystore
key_or_default keystore (c ∷ key) = pure (c ∷ key)

pub record DownloadItem : Type 0 where
  pub url : Text
  pub dest : Text

-- The files of a network, and where they go.
unfoldable pub pulled : Text → Text → List DownloadItem
pulled peer_addr config_dir =
    record {
      url = text "http://" ++ peer_addr ++ text "/genesispeers";
      dest = join_path (config_dir ∷ text "babble" ∷ text "peers.genesis.json" ∷ []);
    }
    ∷ record {
      url = text "http://" ++ peer_addr ++ text "/peers";
      dest = join_path (config_dir ∷ text "babble" ∷ text "peers.json" ∷ []);
    }
    ∷ record {
      url = text "http://" ++ peer_addr ++ text "/genesis";
      dest = join_path (config_dir ∷ text "eth" ∷ text "genesis.json" ∷ []);
    }
    ∷ []

unfoldable pub download_all : List DownloadItem → Bool → M (Unit {0})
download_all [] interactive = pure tt
download_all (item ∷ items) interactive = do
  download_file item.url item.dest interactive
  download_all items interactive

-- The warnings that are printed: of the address of the service, of the one that is advertised, and of
-- the one that is listened on.
pub data Warning : Type 0 where
  api_internal advertise_internal listen_internal : Warning

abbrev api_warning : Text → List Warning
api_warning api = if check_ip api true then api_internal ∷ [] else []

unfoldable pub show_ip_warnings : Text → Text → Text → List Warning
show_ip_warnings api listen advertise =
    api_warning api
    ++ (if not (advertise == []) && check_ip advertise false
        then advertise_internal ∷ []
        else if check_ip listen false
        then listen_internal ∷ []
        else [])

-- The flags of the command, and the addresses that the warnings are about.
pub record PullFlags : Type 0 where
  pub config_dir : Text
  pub keystore : Text
  pub key : Text
  pub password_file : Text
  pub force : Bool
  pub api : Text
  pub listen : Text
  pub advertise : Text

module _ (E : Ethereum) where
  -- The error of making the folders is dropped.
  unfoldable pub pull_config : Text → PullFlags → Text → M (List Warning)
  pull_config toml flags peer_addr = do
    moniker ← key_or_default flags.keystore flags.key
    key ← get_key E flags.keystore moniker flags.password_file
    ignore (create_monet_config_folders flags.config_dir)
    dump_priv_key E (join_path (flags.config_dir ∷ text "babble" ∷ [])) key
    download_all (pulled peer_addr flags.config_dir) (not flags.force)
    dump_global_toml toml flags.config_dir (text "monetd.toml") (not flags.force)
    pure (show_ip_warnings flags.api flags.listen flags.advertise)
