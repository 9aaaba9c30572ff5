-- ===== src/Parse/Command.antt =====
-- `parseGenesis` of cmd/giverny/commands/parse/parse.go. What is printed of the bytecode and of the
-- versions is left out.
use botcoin.Base.{Text, not, Option, none, some, nat_eq, text_eq}
use botcoin.Base.Dict.{Dict}
use botcoin.Base.Result.{Error, ok, err, panic}
use botcoin.Os.{M, lift, gets, fail_if, read_file, ◌>>=◌, ◌>>◌}
use botcoin.Files.{check_if_exists}
use botcoin.Genesis.Storage.{Ethereum}
use botcoin.Parse.Storage.{ParsedGenesis, Ranges, explain_storage}

module _ (E : Ethereum) where
  -- The parameter is what `json.Unmarshal` gives of the storage of the contract, if there is a contract:
  -- its pointer is used without a test.
  unfoldable pub parse_genesis :
      (Text → Option (Option (Dict Text))) → Ranges → (Text → Ranges) → Text → M ParsedGenesis
  parse_genesis unmarshal outer inner genesis_file = do
    there ← gets (check_if_exists genesis_file)
    fail_if (not there) Error.no_genesis
    json ← read_file genesis_file
    poa ← lift (elim (unmarshal json) [ none ↦ err Error.bad_json | some poa ↦ ok poa ])
    storage ← lift (elim poa [ none ↦ panic | some st ↦ ok st ])
    lift (explain_storage E outer inner storage)
