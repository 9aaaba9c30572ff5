-- ===== src/Common/Machine.antt =====
-- src/common/ip.go: the address of this machine, from what the system lists.
use botcoin.Base.{Text, Bool, true, false, Option, none, some, List, [], ◌∷◌}

-- A listed address: whether it is an `*net.IPNet`, a loopback, and its text if it is of IPv4.
pub record InterfaceAddr : Type 0 where
  pub ip_net : Bool
  pub loopback : Bool
  pub to4 : Option Text

abbrev first_address : Bool → Bool → Option Text → Text → Text
first_address true false (some ip) rest = ip
first_address true false none rest = rest
first_address true true to4 rest = rest
first_address false loopback to4 rest = rest

unfoldable pub first_ip : List InterfaceAddr → Text
first_ip [] = []
first_ip (a ∷ addrs) = let rest = first_ip addrs in first_address a.ip_net a.loopback a.to4 rest

-- `none` where the system does not list its addresses.
unfoldable pub get_my_ip : Option (List InterfaceAddr) → Text
get_my_ip none = []
get_my_ip (some addrs) = first_ip addrs
