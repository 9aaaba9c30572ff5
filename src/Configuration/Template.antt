-- ===== src/Configuration/Template.antt =====
-- src/configuration/toml.go: the text of `monetd.toml`, from the options of a node. The escaping of
-- `html/template` and the form of durations are parameters, with how numbers and truth values print.
use botcoin.Base.{ℕ, Text, Bool, true, false, List, [], ◌∷◌, ◌++◌}
use botcoin.Base.Bytes.{text, join}
use botcoin.Base.Bytes.Number.{itoa_ℕ}
use botcoin.Os.{M}
use botcoin.Configuration.{MonetConfig}
use botcoin.Monetd.{dump_global_toml}

pub record Printing : Type 0 where
  -- what the template engine makes of a text that it inserts
  pub escape : Text → Text
  -- `time.Duration`, of a number of milliseconds
  pub duration : ℕ → Text

abbrev print_bool : Bool → Text
print_bool true = text "true"
print_bool false = text "false"

-- A line that sets an option, in quotation marks or not.
abbrev quoted : Text → Text → Text
quoted name value = name ++ (text " = \"" ++ (value ++ text "\""))

abbrev unquoted : Text → Text → Text
unquoted name value = name ++ (text " = " ++ value)

module _ (P : Printing) where
  open P use {escape, duration}

  -- The lines of the template, with the options put in.
  unfoldable pub config_toml_lines : MonetConfig → List Text
  config_toml_lines c =
      []
      ∷ text "# Set to true for extended logging"
      ∷ quoted (text "verbose") (escape (print_bool c.base.verbose))
      ∷ []
      ∷ text "# The IP:PORT of the HTTP API service (defaults to :8080)"
      ∷ quoted (text "api-listen") (escape c.base.api_addr)
      ∷ []
      ∷ text "[babble]"
      ∷ []
      ∷ text "  # IP:PORT on the local machine where Babble will bind its internal gossip "
      ∷ text "  # sockets. If this is not reachable from the outside, use 'advertise' to "
      ∷ text "  # define a routable address that other peers can reach. "
      ∷ quoted (text "  listen") (escape c.babble.bind_addr)
      ∷ []
      ∷ text "  # IP:PORT advertised to other nodes. This is the address that other nodes use"
      ∷ text "  # to contact this node. It defaults to the listen address."
      ∷ quoted (text "  # advertise") (escape c.babble.advertise_addr)
      ∷ []
      ∷ text "  # The heartbeat timer, the time in milliseconds between gossips  "
      ∷ quoted (text "  heartbeat") (escape (duration c.babble.heartbeat))
      ∷ []
      ∷ text "  # TCP timeout  "
      ∷ quoted (text "  timeout") (escape (duration c.babble.tcp_timeout))
      ∷ []
      ∷ text "  # Number of items in the LRU cache  "
      ∷ unquoted (text "  cache-size") (escape (itoa_ℕ c.babble.cache_size))
      ∷ []
      ∷ text "  # Max number of events per sync  "
      ∷ unquoted (text "  sync-limit") (escape (itoa_ℕ c.babble.sync_limit))
      ∷ []
      ∷ text "  # Max number of pool connections  "
      ∷ unquoted (text "  max-pool") (escape (itoa_ℕ c.babble.max_pool))
      ∷ []
      ∷ text "  # Bootstrap Babble from database  "
      ∷ unquoted (text "  bootstrap") (escape (print_bool c.babble.bootstrap))
      ∷ []
      ∷ text "  # Moniker for this node  "
      ∷ quoted (text "  moniker") (escape c.babble.moniker)
      ∷ []
      ∷ text "  # Set to true to enable Maintenance Mode to start Babble in a non-gossipping"
      ∷ text "  # suspended state.  "
      ∷ quoted (text "  maintenance-mode") (escape (print_bool c.babble.maintenance_mode))
      ∷ []
      ∷ text "[eth]"
      ∷ text "  # megabytes of memory allocated to internal caching "
      ∷ text "  # (min 16MB / database forced) (default 128)"
      ∷ unquoted (text "  cache") (escape (itoa_ℕ c.eth.cache))
      ∷ text "  "
      ∷ text
          "  # minimum gasprice of transactions submitted through this node (eg 1T) (default \"0\")  "
      ∷ unquoted (text "  min-gas-price") (escape c.eth.min_gas_price)
      ∷ []
      ∷ []

  unfoldable pub global_toml : MonetConfig → Text
  unfolding config_toml_lines
  global_toml c = join (text "\n") (config_toml_lines c)

  -- `DumpGlobalTOML`, of the options that are in force.
  unfoldable pub dump_config : MonetConfig → Text → Text → Bool → M (Unit {0})
  dump_config c = dump_global_toml (global_toml c)
