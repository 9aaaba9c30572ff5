-- ===== src/Configuration/Places.antt =====
-- src/configuration/const.go, cmd/giverny/configuration/configuration.go, and the places that
-- `monetd config location` prints. Of the host it is read which system runs, `$HOME`, and the home
-- directory of the user, if the system knows one.
use botcoin.Base.{
  Text, ◌≡◌, ◌≢◌, refl, Option, none, some, List, [], ◌∷◌, ◌==◌, text_eq, text_discrete,
  if◌then◌else◌,
}
use botcoin.Base.Bytes.{text, split}
use botcoin.Base.Bytes.Path.{join_path, clean_step}
use botcoin.Base.Bytes.Path.Joined.{IsElement, join_path-injective}

pub record Host : Type 0 where
  pub goos : Text
  pub home_variable : Text
  pub user_home : Option Text

abbrev pub config_dir_name : Text
config_dir_name = text "monetd-config"

abbrev pub babble_dir_name : Text
babble_dir_name = text "babble"

abbrev pub eth_dir_name : Text
eth_dir_name = text "eth"

abbrev pub database_dir_name : Text
database_dir_name = text "monetd-data"

abbrev pub key_store_dir_name : Text
key_store_dir_name = text "keystore"

abbrev pub peers_json : Text
peers_json = text "peers.json"

abbrev pub peers_genesis_json : Text
peers_genesis_json = text "peers.genesis.json"

abbrev pub genesis_json : Text
genesis_json = text "genesis.json"

abbrev pub monet_toml_file : Text
monet_toml_file = text "monetd.toml"

abbrev pub eth_db : Text
eth_db = text "eth-db"

abbrev pub babble_db : Text
babble_db = text "babble-db"

abbrev pub babble_priv_key : Text
babble_priv_key = text "priv_key"

abbrev user_home_or_empty : Option Text → Text
user_home_or_empty none = []
user_home_or_empty (some home) = home

unfoldable pub home_dir : Host → Text
home_dir host = or_user host.home_variable
  where
    or_user : Text → Text
    or_user [] = user_home_or_empty host.user_home
    or_user (c ∷ home) = c ∷ home

-- The directory of a tool on each system, given the names that it has there.
abbrev pub tool_dir : Text → Text → Text → Text → Text
tool_dir goos caps dotted [] = []
tool_dir goos caps dotted (c ∷ home) =
    if goos == text "darwin"
    then join_path ((c ∷ home) ∷ text "Library" ∷ caps ∷ [])
    else if goos == text "windows"
    then join_path ((c ∷ home) ∷ text "AppData" ∷ text "Roaming" ∷ caps ∷ [])
    else join_path ((c ∷ home) ∷ dotted ∷ [])

unfoldable pub default_monet_dir : Host → Text
unfolding home_dir
default_monet_dir host = tool_dir host.goos (text "Monet") (text ".monet") (home_dir host)

unfoldable pub default_giverny_dir : Host → Text
unfolding home_dir
default_giverny_dir host = tool_dir host.goos (text "Giverny") (text ".giverny") (home_dir host)

unfoldable pub default_config_dir : Host → Text
unfolding default_monet_dir
default_config_dir host = join_path (default_monet_dir host ∷ config_dir_name ∷ [])

unfoldable pub default_data_dir : Host → Text
unfolding default_monet_dir
default_data_dir host = join_path (default_monet_dir host ∷ database_dir_name ∷ [])

unfoldable pub default_keystore_dir : Host → Text
unfolding default_monet_dir
default_keystore_dir host = join_path (default_monet_dir host ∷ key_store_dir_name ∷ [])

-- The places, in the order in which they are printed, without their labels.
unfoldable pub location_config : Host → List Text
location_config host =
    join_path (default_config_dir host ∷ monet_toml_file ∷ [])
    ∷ join_path (default_config_dir host ∷ babble_dir_name ∷ peers_json ∷ [])
    ∷ join_path (default_config_dir host ∷ babble_dir_name ∷ peers_genesis_json ∷ [])
    ∷ join_path (default_config_dir host ∷ babble_dir_name ∷ babble_priv_key ∷ [])
    ∷ join_path (default_config_dir host ∷ eth_dir_name ∷ genesis_json ∷ [])
    ∷ join_path (default_data_dir host ∷ babble_db ∷ [])
    ∷ join_path (default_data_dir host ∷ eth_db ∷ [])
    ∷ default_keystore_dir host
    ∷ []

config-IsElement : IsElement config_dir_name
unfolding split clean_step text_discrete
config-IsElement = (refl, λ rooted stack. refl)

data-IsElement : IsElement database_dir_name
unfolding split clean_step text_discrete
data-IsElement = (refl, λ rooted stack. refl)

keystore-IsElement : IsElement key_store_dir_name
unfolding split clean_step text_discrete
keystore-IsElement = (refl, λ rooted stack. refl)

config-ne : config_dir_name ≢ database_dir_name
config-ne e = cc

keystore-ne : key_store_dir_name ≢ config_dir_name
keystore-ne e = cc

keystore_data-ne : key_store_dir_name ≢ database_dir_name
keystore_data-ne e = cc

-- On every host, the configuration, the databases and the key files have directories of their own,
-- also where no home directory is known.
pub default_dirs-ne :
    (host : Host)
    → (default_config_dir host ≢ default_data_dir host)
      × (default_keystore_dir host ≢ default_config_dir host)
      × (default_keystore_dir host ≢ default_data_dir host)
unfolding default_config_dir default_data_dir default_keystore_dir
default_dirs-ne host =
    let dir = default_monet_dir host in
    (
      λ e.
          config-ne
            (join_path-injective dir _ _ (λ z. cc) (λ z. cc) config-IsElement data-IsElement e),
      λ e.
          keystore-ne
            (join_path-injective dir _ _ (λ z. cc) (λ z. cc) keystore-IsElement config-IsElement e),
      λ e.
          keystore_data-ne
            (join_path-injective dir _ _ (λ z. cc) (λ z. cc) keystore-IsElement data-IsElement e),
    )

at_home :
    default_config_dir
      (record { goos = text "linux"; home_variable = text "/home/a"; user_home = none })
    ≡ text "/home/a/.monet/monetd-config"
unfolding default_config_dir home_dir join_path text_discrete
at_home = refl

homeless :
    default_config_dir (record { goos = text "linux"; home_variable = []; user_home = none })
    ≡ text "monetd-config"
unfolding default_config_dir home_dir join_path text_discrete
homeless = refl
