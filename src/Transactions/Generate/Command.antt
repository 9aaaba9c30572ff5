-- ===== src/Transactions/Generate/Command.antt =====
-- The command `giverny transactions generate` as a whole: its checks, the mapping of addresses, and the
-- files that it writes. The JSON of the files and the TOML of the network are parameters.
use botcoin.Base.{ℕ, Text, not, Option, none, some, List, [], ◌∷◌, ◌++◌, text_eq, if◌then◌else◌}
use botcoin.Base.Int.{ℤ}
use botcoin.Base.Dict.{Dict, insert}
use botcoin.Base.Bytes.{text, split, is_space, onto_first}
use botcoin.Base.Bytes.Path.{join_path}
use botcoin.Base.Result.{Error, Result, ok, err}
use botcoin.Os.{M, pure, lift, ◌>>=◌, ◌>>◌, ignore, fail_if, gets, open_path, read_file, or_error}
use botcoin.Common.{check_moniker}
use botcoin.Files.{
  check_if_exists, safe_rename, create_dirs_if_not_exists, write_to_file, backup_existing,
}
use botcoin.Network.Nodes.{Node}
use botcoin.Transactions.Draw.{Draws}
use botcoin.Transactions.Generate.{
  AccountBook, FullTransaction, Delta, Generated, parse_nodes, generate_transactions,
}

-- A byte in front of the fields of a text: it starts a field of its own if no field follows it at once.
abbrev before : ℕ → Text → List Text → List Text
before c [] parts = (c ∷ []) ∷ parts
before c (d ∷ s) parts = if is_space d then (c ∷ []) ∷ parts else onto_first c parts

-- `strings.Fields`
unfoldable pub fields : Text → List Text
fields [] = []
fields (c ∷ s) = let parts = fields s in if is_space c then parts else before c s parts

-- The lines of a scanner: what stands behind the last end of line is one if it is not empty.
unfoldable pub scanned : List Text → List Text
scanned [] = []
scanned ([] ∷ []) = []
scanned (line ∷ lines) = line ∷ scanned lines

abbrev two : List Text → Option (Text × Text)
two (a ∷ b ∷ []) = some (a, b)
two _ = none

unfoldable pub read_mapping : List Text → Dict Text → Result (Dict Text)
read_mapping [] ips = ok ips
read_mapping (line ∷ lines) ips = elim (two (fields line)) [
  | none ↦ err Error.malformed_mapping
  | some (a, b) ↦ read_mapping lines (insert a b ips)
]

-- Lines of more than 64 KB, which the scanner refuses, are not told apart.
unfoldable pub load_ips : Text → M (Dict Text)
load_ips ips = do
  there ← gets (check_if_exists ips)
  fail_if (not there) Error.no_mapping
  open_path ips
  content ← read_file ips
  lift (read_mapping (scanned (split b'\n' content)) [])

pub record GenerateFormats : Type 0 where
  pub unmarshal_nodes : Text → Option (List Node)
  pub marshal_node : AccountBook → Text
  pub marshal_transactions : List FullTransaction → Text
  pub marshal_deltas : List Delta → Text

pub record GenerateFlags : Type 0 where
  pub network_name : Text
  pub ips : Text
  pub faucet : Text
  pub total_transactions : ℕ
  pub surplus : ℤ

module _ (F : GenerateFormats) where
  -- The errors of the writes are dropped.
  abbrev write_books : Text → List AccountBook → M (Unit {0})
  write_books dir [] = pure tt
  write_books dir (b ∷ books) = do
    ignore (
        write_to_file (join_path (dir ∷ (b.account.moniker ++ text ".json") ∷ []))
          (F.marshal_node b) backup_existing)
    write_books dir books

  unfoldable pub write_generated : Text → Generated → M (Unit {0})
  write_generated dir g = do
    write_books dir g.books
    ignore (
        write_to_file (join_path (dir ∷ text "faucet.json" ∷ []))
          (F.marshal_transactions g.faucet_transactions) backup_existing)
    ignore (
        write_to_file (join_path (dir ∷ text "trans.json" ∷ []))
          (F.marshal_transactions g.full_transactions) backup_existing)
    ignore (
        write_to_file (join_path (dir ∷ text "delta.json" ∷ [])) (F.marshal_deltas g.deltas)
          backup_existing)

  abbrev mapping : Text → M (Option (Dict Text))
  mapping [] = pure none
  mapping (c ∷ ips) = do d ← load_ips (c ∷ ips); pure (some d)

  abbrev with_nodes : Text → GenerateFlags → Draws → List Node → M (Unit {0})
  with_nodes dir flags draws nodes = do
    ips ← mapping flags.ips
    g ← lift (
        generate_transactions flags.total_transactions flags.surplus
          (parse_nodes flags.faucet ips nodes (record { nodes = []; accounts = []; faucet = none }))
          draws)
    write_generated dir g

  -- A description of the network that does not parse ends the command without an error.
  unfoldable pub generate_command : Text → GenerateFlags → Draws → M (Unit {0})
  generate_command giverny flags draws = do
    let network = join_path (giverny ∷ text "networks" ∷ flags.network_name ∷ [])
    let dir = join_path (network ∷ text "trans" ∷ [])
    fail_if (not (check_moniker flags.network_name)) Error.network_name_invalid
    there ← gets (check_if_exists network)
    fail_if (not there) Error.no_network_dir
    store ← gets (check_if_exists (join_path (network ∷ text "keystore" ∷ [])))
    fail_if (not store) Error.no_keystore
    described ← gets (check_if_exists (join_path (network ∷ text "network.toml" ∷ [])))
    fail_if (not described) Error.no_network_toml
    safe_rename dir
    create_dirs_if_not_exists (dir ∷ [])
    toml ← or_error (read_file (join_path (network ∷ text "network.toml" ∷ []))) Error.toml_read
    elim (F.unmarshal_nodes toml) [ none ↦ pure tt | some nodes ↦ with_nodes dir flags draws nodes ]
