-- ===== src/Configuration.antt =====
-- src/configuration/config.go and config_babble.go: the options of a node, and what Babble and EVM-Lite
-- get of them. Of their configurations only the fields that are set here are modelled.
pub mod Places
pub mod Template
use botcoin.Base.{ℕ, Text, Bool, true, false, [], ◌∷◌, ◌++◌, if◌then◌else◌}
use botcoin.Base.Bytes.{text}
use botcoin.Base.Bytes.Path.{join_path}

-- The options for Babble; times are in milliseconds.
pub record BabbleConfig : Type 0 where
  pub bind_addr : Text
  pub advertise_addr : Text
  pub heartbeat : ℕ
  pub tcp_timeout : ℕ
  pub cache_size : ℕ
  pub sync_limit : ℕ
  pub max_pool : ℕ
  pub bootstrap : Bool
  pub maintenance_mode : Bool
  pub suspend_limit : ℕ
  pub moniker : Text

-- The address of this machine is what `common.GetMyIP` finds.
unfoldable pub default_babble_config : Text → BabbleConfig
default_babble_config my_ip = record {
  bind_addr = my_ip ++ text ":1337";
  advertise_addr = [];
  heartbeat = 200;
  tcp_timeout = 1000;
  cache_size = 50000;
  sync_limit = 1000;
  max_pool = 2;
  bootstrap = true;
  maintenance_mode = false;
  suspend_limit = 300;
  moniker = [];
}

pub record BaseConfig : Type 0 where
  pub config_dir : Text
  pub data_dir : Text
  pub verbose : Bool
  pub api_addr : Text

unfoldable pub default_base_config : Text → Text → BaseConfig
default_base_config config_dir data_dir = record {
  config_dir = config_dir;
  data_dir = data_dir;
  verbose = false;
  api_addr = text ":8080";
}

pub record EthConfig : Type 0 where
  pub cache : ℕ
  pub min_gas_price : Text

unfoldable pub default_eth_config : EthConfig
default_eth_config = record { cache = 128; min_gas_price = text "0" }

pub record MonetConfig : Type 0 where
  pub base : BaseConfig
  pub eth : EthConfig
  pub babble : BabbleConfig

unfoldable pub default_config : Text → Text → Text → MonetConfig
default_config my_ip config_dir data_dir = record {
  base = default_base_config config_dir data_dir;
  eth = default_eth_config;
  babble = default_babble_config my_ip;
}

unfoldable pub log_level_name : BaseConfig → Text
log_level_name c = if c.verbose then text "debug" else text "info"

pub record EvmlFields : Type 0 where
  pub log_level : Text
  pub eth_api_addr : Text
  pub genesis : Text
  pub db_file : Text
  pub cache : ℕ
  pub min_gas_price : Text

unfoldable pub to_evml_config : MonetConfig → EvmlFields
to_evml_config c = record {
  log_level = log_level_name c.base;
  eth_api_addr = c.base.api_addr;
  genesis = join_path (c.base.config_dir ∷ text "eth" ∷ text "genesis.json" ∷ []);
  db_file = join_path (c.base.data_dir ∷ text "eth-db" ∷ []);
  cache = c.eth.cache;
  min_gas_price = c.eth.min_gas_price;
}

pub record EngineFields : Type 0 where
  pub data_dir : Text
  pub database_dir : Text
  pub log_level : Text
  pub options : BabbleConfig
  pub store : Bool
  pub enable_fast_sync : Bool
  pub service_addr : Text

-- The storage is persistent, there is no fast synchronisation, and the service of Babble is not started.
unfoldable pub to_babble_config : MonetConfig → EngineFields
to_babble_config c = record {
  data_dir = join_path (c.base.config_dir ∷ text "babble" ∷ []);
  database_dir = join_path (c.base.data_dir ∷ text "babble-db" ∷ []);
  log_level = log_level_name c.base;
  options = c.babble;
  store = true;
  enable_fast_sync = false;
  service_addr = [];
}
