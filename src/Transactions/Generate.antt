-- ===== src/Transactions/Generate.antt =====
-- cmd/giverny/commands/transactions/generate.go: test transactions for the accounts of a network. The
-- columns that the code keeps by the index of an account are one record for each account.
pub mod Books
pub mod Deltas
pub mod Command
mod Tests
use Prim.Native.Nat.{zero}
use botcoin.Base.{
  ℕ, suc, Text, ◌+◌, ◌*◌, ◌%◌, Bool, true, false, not, ◌&&◌, Option, none, some, List, [], ◌∷◌,
  ◌++◌, ◌==◌, text_eq, nat_eq, ltb, if◌then◌else◌, length, get_elem?, modify, map,
}
use botcoin.Base.Int.{ℤ, pos, ◌+ℤ◌, ◌-ℤ◌}
use botcoin.Base.Dict.{Dict, lookup}
use botcoin.Base.Bytes.{text, contains}
use botcoin.Base.Result.{Error, Result, ok, err, panic, hang, ◌>>=◌}
use botcoin.Transactions.Draw.{Draws, intn, draw_pair}
use botcoin.Network.Nodes.{Node}

pub record ApiNode : Type 0 where
  pub moniker : Text
  pub net_addr : Text

pub record Account : Type 0 where
  pub moniker : Text
  pub tokens : Text
  pub pub_key_hex : Text
  pub address : Text

pub record FullTransaction : Type 0 where
  pub node : Text
  pub node_name : Text
  pub from : Text
  pub from_name : Text
  pub to : Text
  pub amount : ℤ

pub record Delta : Type 0 where
  pub moniker : Text
  pub address : Text
  pub trans_credit : ℕ
  pub trans_debit : ℕ
  pub trans_net : ℤ
  pub faucet_credit : ℤ
  pub total_net : ℤ

-- An account with its credits, its debits and what it sends.
pub record AccountBook : Type 0 where
  pub account : Account
  pub credit : ℕ
  pub debit : ℕ
  pub transactions : List FullTransaction

-- What the loop over the nodes of `network.toml` collects.
pub record Parsed : Type 0 where
  pub nodes : List ApiNode
  pub accounts : List Account
  pub faucet : Option Account

abbrev parsed_account : Node → Account
parsed_account n = record {
  moniker = n.moniker;
  tokens = n.tokens;
  pub_key_hex = n.pub_key_hex;
  address = n.address;
}

-- With a mapping of addresses, one that it does not have becomes empty.
unfoldable pub mapped_addr : Option (Dict Text) → Text → Text
mapped_addr none addr = addr
mapped_addr (some ips) addr = elim (lookup addr ips) [ none ↦ [] | some a ↦ a ]

unfoldable pub api_addr : Text → Text
api_addr addr =
    if not (contains b':' addr) && ltb 0 (length addr) then addr ++ text ":8080" else addr

-- A node without an address is the faucet or an account.
unfoldable pub parse_node : Text → Option (Dict Text) → Node → Parsed → Parsed
unfolding mapped_addr api_addr
parse_node faucet ips n parsed =
    if n.net_addr == []
    then (if n.moniker == faucet
        then record parsed { faucet = some (parsed_account n) }
        else record parsed { accounts = parsed.accounts ++ (parsed_account n ∷ []) })
    else record parsed {
      nodes =
          parsed.nodes
          ++ (record { moniker = n.moniker; net_addr = api_addr (mapped_addr ips n.net_addr) }
              ∷ []);
    }

unfoldable pub parse_nodes : Text → Option (Dict Text) → List Node → Parsed → Parsed
parse_nodes faucet ips [] parsed = parsed
parse_nodes faucet ips (n ∷ nodes) parsed =
    parse_nodes faucet ips nodes (parse_node faucet ips n parsed)

unfoldable pub new_book : Account → AccountBook
new_book a = record { account = a; credit = 0; debit = 0; transactions = [] }

-- `nodes[rand.Intn(nodecnt)]`
unfoldable pub draw_node : List ApiNode → Draws → Result (ApiNode × Draws)
draw_node nodes draws = do
  (i, rest) ← intn (length nodes) draws
  elim (get_elem? nodes i) [ none ↦ panic | some n ↦ ok (n, rest) ]

unfoldable pub new_transaction : ApiNode → Account → Account → ℤ → FullTransaction
new_transaction n from to amount = record {
  node = n.net_addr;
  node_name = n.moniker;
  from = from.address;
  from_name = from.moniker;
  to = to.address;
  amount = amount;
}

unfoldable pub debit_book : ℕ → FullTransaction → AccountBook → AccountBook
debit_book amount t b = record b {
  debit = b.debit + amount;
  transactions = b.transactions ++ (t ∷ []);
}

unfoldable pub credit_book : ℕ → AccountBook → AccountBook
credit_book amount b = record b { credit = b.credit + amount }

abbrev pub book_transfer :
    Option AccountBook
    → Option AccountBook
    → ApiNode
    → ℕ
    → ℕ
    → ℕ
    → List AccountBook
    → Result (List AccountBook × FullTransaction)
book_transfer (some f) (some t) n from to amount books = ok (
  modify from (debit_book amount (new_transaction n f.account t.account (pos amount)))
      (modify to (credit_book amount) books),
  new_transaction n f.account t.account (pos amount),
)
book_transfer _ _ n from to amount books = panic

-- The loop, with the rounds that are left: the books, and all transactions in order.
unfoldable pub generate :
    ℕ
    → List ApiNode
    → Draws
    → List AccountBook
    → List FullTransaction
    → Result (List AccountBook × List FullTransaction × Draws)
generate zero nodes draws books full = ok (books, full, draws)
generate (suc rounds) nodes draws books full = do
  (from, to, rest) ← draw_pair (length books) draws
  (d, rest') ← intn 99990 rest
  (n, rest'') ← draw_node nodes rest'
  (books', t) ←
      book_transfer (get_elem? books from) (get_elem? books to) n from to
        ((d + 9) * 100000000 * 100000000) books
  generate rounds nodes rest'' books' (full ++ (t ∷ []))

unfoldable pub delta_of : ℤ → AccountBook → Delta
delta_of surplus b = record {
  moniker = b.account.moniker;
  address = b.account.address;
  trans_credit = b.credit;
  trans_debit = b.debit;
  trans_net = pos b.credit -ℤ pos b.debit;
  faucet_credit = pos b.debit +ℤ surplus;
  total_net = pos b.credit +ℤ surplus;
}

-- The loop over the accounts: what the faucet sends to each.
unfoldable pub fund_accounts :
    Account → ℤ → List ApiNode → List AccountBook → Draws → Result (List FullTransaction)
fund_accounts faucet surplus nodes [] draws = ok []
fund_accounts faucet surplus nodes (b ∷ books) draws = do
  (n, rest) ← draw_node nodes draws
  others ← fund_accounts faucet surplus nodes books rest
  ok (new_transaction n faucet b.account (pos b.debit +ℤ surplus) ∷ others)

-- What the files of a run hold: each account's transactions, the faucet's, all, and the deltas.
pub record Generated : Type 0 where
  pub books : List AccountBook
  pub faucet_transactions : List FullTransaction
  pub full_transactions : List FullTransaction
  pub deltas : List Delta

abbrev generate_with : Option Account → ℕ → ℤ → Parsed → Draws → Result Generated
generate_with none count surplus parsed draws = err Error.no_faucet
generate_with (some faucet) count surplus parsed draws =
    if ltb (length parsed.accounts) 2 then err Error.too_few_accounts else (do
      (books, full, rest) ← generate count parsed.nodes draws (map new_book parsed.accounts) []
      paid ← fund_accounts faucet surplus parsed.nodes books rest
      ok (record {
        books = books;
        faucet_transactions = paid;
        full_transactions = full;
        deltas = map (delta_of surplus) books;
      }))

-- The command between the files that it reads and those that it writes.
unfoldable pub generate_transactions : ℕ → ℤ → Parsed → Draws → Result Generated
generate_transactions count surplus parsed draws =
    generate_with parsed.faucet count surplus parsed draws
