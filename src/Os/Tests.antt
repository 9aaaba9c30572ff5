-- ===== src/Os/Tests.antt =====
-- Runs of the calls.
use botcoin.Base.{◌≡◌, refl, false, none, some, [], ◌∷◌, text_discrete}
use botcoin.Base.Bytes.{text}
use botcoin.Base.Dict.{lookup, insert}
use botcoin.Base.Bytes.Path.{join_path, dir, ext}
use botcoin.Base.Bytes.Number.{itoa_ℕ}
use botcoin.Os.Daemon.{no_daemon}
use botcoin.Os.Monad.{World, directory}
use botcoin.Os.Calls.{mkdir_all}

join_paths : join_path (text "" ∷ text "/a/" ∷ text "../b" ∷ text "c.json" ∷ []) ≡ text "/b/c.json"
unfolding join_path text_discrete
join_paths = refl

dirs : dir (text "/b/c.json") ≡ text "/b"
unfolding dir text_discrete
dirs = refl

exts : ext (text "a.d/c.json") ≡ text ".json"
unfolding ext
exts = refl

numbers : itoa_ℕ 1037 ≡ text "1037"
unfolding itoa_ℕ
numbers = refl

abbrev empty_world : World
empty_world = record {
  disk = [];
  stdin = [];
  fault = λ c p. false;
  net = λ u. none;
  daemon = no_daemon;
  calls = [];
}

made : lookup (text "/a/b") ((mkdir_all (text "/a/b") empty_world).1).disk ≡ some directory
unfolding mkdir_all lookup insert text_discrete
made = refl
