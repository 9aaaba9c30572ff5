-- ===== src/Transactions/Generate/Tests.antt =====
-- Two transactions between two accounts of a network with one node.
use botcoin.Base.{Text, ◌≡◌, refl, true, false, none, [], ◌∷◌, map, text_discrete}
use botcoin.Base.Int.{pos}
use botcoin.Base.Bytes.{text, contains}
use botcoin.Base.Result.{Result, ok}
use botcoin.Transactions.Draw.{Draws, intn, draw_pair}
use botcoin.Network.Nodes.{Node}
use botcoin.Transactions.Generate.{
  Parsed, Generated, parse_nodes, parse_node, api_addr, mapped_addr, generate_transactions,
  generate, draw_node, fund_accounts, new_book, delta_of,
}
use botcoin.Transactions.Generate.Deltas.{grants, promised, generate_transactions-even}
use botcoin.Transactions.Generate.Books.{AreEven}

abbrev described : Text → Text → Node
described moniker addr = record {
  moniker = moniker;
  net_addr = addr;
  validator = true;
  tokens = text "9";
  pub_key_hex = [];
  address = moniker;
  non_node = false;
}

abbrev parsed : Parsed
parsed =
    parse_nodes (text "Faucet") none
      (described (text "node0") (text "10.0.0.1")
        ∷ described (text "a") []
        ∷ described (text "Faucet") []
        ∷ described (text "b") []
        ∷ [])
      (record { nodes = []; accounts = []; faucet = none })

-- The address of the node gets the port of the interface.
parsed_nodes :
    parsed.nodes ≡ record { moniker = text "node0"; net_addr = text "10.0.0.1:8080" } ∷ []
unfolding parse_nodes parse_node api_addr mapped_addr contains text_discrete
parsed_nodes = refl

abbrev draws : Draws
draws = 0 ∷ 1 ∷ 5 ∷ 0 ∷ 1 ∷ 1 ∷ 1 ∷ 0 ∷ 7 ∷ 0 ∷ 0 ∷ 0 ∷ []

abbrev generated_of : Result Generated → Generated
generated_of (ok g) = g
generated_of _ = record {
  books = [];
  faucet_transactions = [];
  full_transactions = [];
  deltas = [];
}

abbrev run : Result Generated
run = generate_transactions 2 (pos 3) parsed draws

run_ok : run ≡ ok (generated_of run)
unfolding generate_transactions generate draw_pair intn draw_node fund_accounts new_book parse_nodes
    parse_node text_discrete
run_ok = refl

generate_transactions-even_example :
    AreEven parsed.accounts (generated_of run).books (generated_of run).full_transactions
    × ((generated_of run).deltas ≡ map (delta_of (pos 3)) (generated_of run).books)
    × (grants (generated_of run).faucet_transactions ≡ promised (generated_of run).deltas)
generate_transactions-even_example = generate_transactions-even 2 (pos 3) parsed draws run_ok
