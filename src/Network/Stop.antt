-- ===== src/Network/Stop.antt =====
-- cmd/giverny/commands/network/stop.go.
use botcoin.Base.{Text, Bool, List, [], ◌∷◌}
use botcoin.Base.Dict.{Dict}
use botcoin.Base.Result.{panic}
use botcoin.Os.{M, lift}
use botcoin.Docker.{stop_network, stop_node}

-- The command takes one argument or more: a network, and perhaps one of its nodes. Without one, it is
-- the index that panics. `range` is the order of the map of containers.
unfoldable pub network_stop : (Dict Text → Dict Text) → List Text → Bool → M (Unit {0})
network_stop range [] remove = lift panic
network_stop range (network ∷ []) remove = stop_network range network remove
network_stop range (network ∷ node ∷ rest) remove = stop_node network node remove
