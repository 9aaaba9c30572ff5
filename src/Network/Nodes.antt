-- ===== src/Network/Nodes.antt =====
-- cmd/giverny/commands/network/new.go: the nodes of a new network, counted out or read from a file of
-- names. `ExpandCurrencyString` of EVM-Lite is a parameter.
pub mod Counted
pub mod Named
mod Tests
use Prim.Native.Nat.{zero}
use botcoin.Base.{
  ℕ, suc, Text, ◌+◌, Bool, true, false, not, ◌&&◌, ◌||◌, Option, none, some, List, [], ◌∷◌, ◌++◌,
  ◌==◌, text_eq, nat_eq, ltb, leb, if◌then◌else◌, get_elem?,
}
use botcoin.Base.Int.{ℤ, pos, ◌+ℤ◌}
use botcoin.Base.Bytes.{text, contains, split, join, trim_space}
use botcoin.Base.Bytes.Number.{itoa, itoa_ℕ, atoi}
use botcoin.Base.Result.{Error, Result, ok, err, ◌>>=◌}
use botcoin.Common.{check_moniker}

pub record Node : Type 0 where
  pub moniker : Text
  pub net_addr : Text
  pub validator : Bool
  pub tokens : Text
  pub pub_key_hex : Text
  pub address : Text
  pub non_node : Bool

abbrev pub default_tokens : Text
default_tokens = text "1234567890000000000000"

-- How many nodes are validators, none for all; and the first address, without its last number, and
-- that number.
pub record Plan : Type 0 where
  pub validators : ℕ
  pub ip_stem : Text
  pub last_digit : ℤ

-- The address that is planned for the node of an index.
unfoldable pub planned_addr : Plan → ℕ → Text
planned_addr plan i =
    if plan.ip_stem == [] then [] else plan.ip_stem ++ itoa (plan.last_digit +ℤ pos i)

unfoldable pub planned_validator : Plan → ℕ → Bool
planned_validator plan i = (plan.validators == 0) || ltb i plan.validators

unfoldable pub counted_node : Plan → ℕ → Node
counted_node plan i = record {
  moniker = text "node" ++ itoa_ℕ i;
  net_addr = planned_addr plan i;
  validator = planned_validator plan i;
  tokens = default_tokens;
  pub_key_hex = [];
  address = [];
  non_node = false;
}

-- The loop from index `i`, with the rounds that are left.
unfoldable pub create_nodes_from : Plan → ℕ → ℕ → List Node
create_nodes_from plan zero i = []
create_nodes_from plan (suc rounds) i = counted_node plan i ∷ create_nodes_from plan rounds (i + 1)

unfoldable pub create_nodes_iteratively : Plan → ℕ → List Node
create_nodes_iteratively plan n = create_nodes_from plan n 0

-- `strconv.ParseBool`, whose error is dropped.
unfoldable pub parse_bool : Text → Bool
parse_bool s =
    (s == text "1")
    || (s == text "t")
    || (s == text "T")
    || (s == text "TRUE")
    || (s == text "true")
    || (s == text "True")

-- A field of a line; one that is missing is empty.
unfoldable pub field : ℕ → List Text → Text
field i parts = elim (get_elem? parts i) [ none ↦ [] | some s ↦ s ]

abbrev pub is_blank : Text → Bool
is_blank s = trim_space s == []

abbrev is_comment : Text → Bool
is_comment [] = false
is_comment (c ∷ s) = c == b'#'

-- A line that describes a node: trimmed, not empty and no comment.
abbrev pub is_entry : Text → Bool
is_entry line = not (line == []) && not (is_comment line)

-- Without a number behind the last dot, the nodes get no addresses.
abbrev with_digit : List Text → Option ℤ → ℕ → Plan
with_digit stem none validators = record {
  validators = validators;
  ip_stem = [];
  last_digit = pos 0;
}
with_digit stem (some d) validators = record {
  validators = validators;
  ip_stem = join (text ".") stem ++ text ".";
  last_digit = d;
}

abbrev plan_parts : List Text → ℕ → Result Plan
plan_parts (a ∷ b ∷ c ∷ d ∷ []) validators = ok (with_digit (a ∷ b ∷ c ∷ []) (atoi d) validators)
plan_parts _ validators = err Error.malformed_ip

unfoldable pub make_plan : Text → ℕ → Result Plan
make_plan [] validators = ok (record { validators = validators; ip_stem = []; last_digit = pos 0 })
make_plan (c ∷ ip) validators = plan_parts (split b'.' (c ∷ ip)) validators

-- One entry, in front of what the loop makes of the lines behind it.
abbrev pub add_node : Node → Bool → Result (List Node) → Result (List Node)
add_node node last rest =
    if not (check_moniker node.moniker)
    then err Error.node_name_invalid
    else if last
    then ok (node ∷ [])
    else rest >>= λ nodes. ok (node ∷ nodes)

module _ (expand_currency : Text → Text) where
  -- The node of an entry, the `i`-th from 0.
  unfoldable pub named_node : Plan → ℕ → Text → Node
  named_node plan i line =
      let parts = if contains b',' line then split b',' line else line ∷ [] in
      let planned = if is_blank (field 1 parts) then planned_addr plan i else field 1 parts in
      let non_node = if is_blank (field 4 parts) then false else parse_bool (field 4 parts) in
      record {
        moniker = field 0 parts;
        net_addr = if non_node then [] else planned;
        validator =
            if is_blank (field 3 parts)
            then planned_validator plan i
            else parse_bool (field 3 parts);
        tokens =
            if is_blank (field 2 parts) then default_tokens else expand_currency (field 2 parts);
        pub_key_hex = [];
        address = [];
        non_node = non_node;
      }

  -- The loop over the lines, with the index of the next entry; a limit of 0 is none.
  unfoldable pub read_names : Plan → ℕ → ℕ → List Text → Result (List Node)
  unfolding named_node
  read_names plan limit i [] = ok []
  read_names plan limit i (line ∷ lines) =
      let entry = is_entry (trim_space line) in
      let rest = read_names plan limit (if entry then i + 1 else i) lines in
      if entry
      then add_node (named_node plan i (trim_space line)) (ltb 0 limit && leb limit (i + 1)) rest
      else rest
