-- ===== src/Lib.antt =====
-- A model of Monet hub (monetd) and giverny: the application that commits Babble's blocks to the state
-- of the EVM and keeps the validators in step with the POA contract, and the tools that make keys,
-- genesis files, networks and test transactions.
--
-- The parts, and the code that each models:
--   Babble        src/babble/inmem_proxy.go. `CommitBlock` over a `Chain`, a record of what Babble,
--                 EVM-Lite and go-ethereum offer: `get_coinbase`, `apply_transactions`,
--                 `process_internal_transactions`, `process_evictions`, `commit_block`. The state is
--                 passed on; the whitelist is read in the state that the block has left. Members
--                 runs blocks over a `Consensus`, what Babble does with receipts and evictions.
--   Genesis       src/genesis/storage.go (Storage: the storage of the contract, by slots) and
--                 src/genesis/genesis.go (Build: the genesis file; its accounts and what is written).
--   Crypto        src/crypto: passphrases and key files. go-ethereum is `Ethereum`. Vault is the
--                 abstract view of the key files, a map from paths to keys, and its step relation;
--                 Random is `RandomPassphrase`.
--   Docker        src/docker: networks, containers and images, over the daemon of the `World`; copy.go
--                 (Archive: what is packed, Names: under which names).
--   Files         src/files/files.go: options on existing files, backups, copies, downloads.
--   Network       cmd/giverny/commands/network/new.go (Nodes: the nodes; Create: keys and the command)
--                 and build.go (Config: peers, accounts and files, by the models of Genesis and Files),
--                 start.go (Start) and aws.go (Aws), which share the files of a node (Export), push.go
--                 (Push), stop.go (Stop), dump.go (Dump), and location.go, list.go and status.go
--                 (Places), with src/files/toml.go (Toml), over Docker, Crypto and Files.
--   Parse         cmd/giverny/commands/parse/parse.go: explaining the storage of a genesis file (Rows,
--                 Arrays, Elections, Storage, Command), against the layout that Genesis writes.
--   Transactions  cmd/giverny/commands/transactions: solo.go (Solo) and generate.go (Generate), with the
--                 commands around them (Command). What `math/rand` draws is a list.
--   Monetd        cmd/monetd/commands/config: `config build` (Built: its files), `whitelist` and `pull`
--                 (Pull: its downloads and all that it leaves), over Crypto, Genesis and Files;
--                 `clear`, the commands for one key, and how root.go reads the options (Commands).
--   Keys          cmd/giverny/commands/keys and the list of cmd/monetd/commands/keys, over Crypto;
--                 Generated is on the range of test accounts.
--   Configuration src/configuration: the options of a node, what Babble and EVM-Lite get of them, the
--                 paths on each system (Places, with cmd/monetd/commands/config/location.go and
--                 cmd/giverny/configuration) and the text of `monetd.toml` (Template).
--   Common        src/common/utils.go, message.go (Messages) and ip.go (Machine), and src/version
--                 (Version).
--   Os            the calls of `os`, `io/ioutil` and the console: a `World` of paths, typed lines and
--                 calls that the system refuses, and actions `M` that return a `Result` and the world.
--                 A write can also be cut off, when the file has been emptied.
--                 The Docker daemon is an oracle: it answers a call by the calls made so far, which the
--                 world records.
--   Base          texts as lists of bytes, numbers, dictionaries, results.
--
-- How calls end is a `Result`: a value, an error (by the message that the program gives), a panic,
-- or a wait that never ends. Loops that draw again, or that prompt again, are recursion on the
-- draws or the lines that are left, and end in `hang` when these run out; the theorems on totality
-- say which draws are enough. The loop over backup names has the code's 99 rounds. The integers of
-- Go that are counters or flags are natural numbers, since none comes near 2^63; amounts are big
-- integers in the code. The bound that a solo amount is drawn below is an int of 64 bits, which
-- wraps around, in the product and the difference; the 9 that is added to the draw is not wrapped.
-- The counts of a parsed storage are integers, with the range of `strconv.Atoi`, and its loops
-- have as many rounds as these say. The order in which Go goes over a map is that of the list that
-- stands for it, or a parameter, as for the containers that a stop goes over and the elections of
-- the parser. The remainder by the number of validators is taken modulo 2^32, as there.
--
-- Left out: log lines and the labels of printed output; modes of directories, links and the umask;
-- JSON, TOML, hashes and ciphers, which are parameters with their documented behaviour as named
-- hypotheses; the logger; what the Docker daemon does with a call, its logs, and copies out of a
-- container; the start of a node (babble.go, run.go), which only hands the options on; the bytecode of
-- the contract, which is generated.
pub mod Base
pub mod Os
pub mod Files
pub mod Babble
pub mod Transactions
pub mod Genesis
pub mod Common
pub mod Crypto
pub mod Docker
pub mod Network
pub mod Monetd
pub mod Parse
pub mod Keys
pub mod Configuration
