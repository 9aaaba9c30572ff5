-- ===== src/Transactions.antt =====
-- cmd/giverny/commands/transactions: sets of test transactions between accounts that a faucet funds.
-- The draws of `math/rand` are a list of numbers; `rand.Intn(n)` is a draw modulo `n`.
pub mod Draw
pub mod Solo
pub mod Generate
