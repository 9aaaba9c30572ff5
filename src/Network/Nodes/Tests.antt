-- ===== src/Network/Nodes/Tests.antt =====
-- Nodes that are counted out, and nodes of a file of names.
use botcoin.Base.{Text, ◌≡◌, refl, true, false, List, [], ◌∷◌, ◌++◌, text_discrete}
use botcoin.Base.Int.{pos, ◌+ℤ◌}
use botcoin.Base.Bytes.{text, trim_space, trim_left, trim_right, contains, split}
use botcoin.Base.Bytes.Number.{itoa, itoa_ℕ}
use botcoin.Base.Result.{ok}
use botcoin.Common.{check_moniker}
use botcoin.Network.Nodes.{
  Node, Plan, named_node, read_names, default_tokens, field, planned_addr, planned_validator,
  parse_bool,
}
use botcoin.Network.Nodes.Named.{checked, numbered, limited, entries, read_names-checked}

abbrev plan : Plan
plan = record { validators = 1; ip_stem = text "10.0.0."; last_digit = pos 9 }

abbrev expand : Text → Text
expand s = s ++ text "0"

abbrev lines : List Text
lines = text "# names" ∷ text "a" ∷ text "" ∷ text " b,,5,true,1" ∷ text "not valid!" ∷ []

abbrev first_node : Node
first_node = record {
  moniker = text "a";
  net_addr = text "10.0.0.9";
  validator = true;
  tokens = default_tokens;
  pub_key_hex = [];
  address = [];
  non_node = false;
}

abbrev second_node : Node
second_node = record {
  moniker = text "b";
  net_addr = [];
  validator = true;
  tokens = text "50";
  pub_key_hex = [];
  address = [];
  non_node = true;
}

names_run : read_names expand plan 2 0 lines ≡ ok (first_node ∷ second_node ∷ [])
unfolding read_names named_node field planned_addr planned_validator parse_bool trim_space trim_left
    trim_right contains split itoa itoa_ℕ check_moniker text_discrete ◌+ℤ◌
names_run = refl

read_names-checked_example :
    read_names expand plan 2 0 lines
    ≡ checked expand plan (numbered expand plan 0 (limited 2 0 (entries lines)))
read_names-checked_example = read_names-checked expand plan 2 lines
