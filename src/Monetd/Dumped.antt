-- ===== src/Monetd/Dumped.antt =====
-- The files of a configuration, by the names that they end with, and what `DumpGlobalTOML` leaves.
use botcoin.Base.{ℕ, Text, Bool, true, false, ◌≡◌, ◌≢◌, refl, ap, ◌∙◌, some, [], ◌∷◌, text_discrete}
use botcoin.Base.Dict.{lookup}
use botcoin.Base.Bytes.{text, split}
use botcoin.Base.Bytes.Path.{join_path, clean_step}
use botcoin.Base.Bytes.Path.Joined.{IsElement}
use botcoin.Base.Result.{Error, ok}
use botcoin.Os.{World, file, write_file}
use botcoin.Os.Rules.{M-eq-ok, or_error-eq-ok}
use botcoin.Os.Disk.{write_file-written}
use botcoin.Os.Spares.{Spares, bind-Spares, write_file-Spares}
use botcoin.Files.{write_to_file, process_file_options, prompt_if_existing}
use botcoin.Files.Silent.{silent-Spares, silent-eq-ok}
use botcoin.Monetd.{dump_global_toml}
use botcoin.Monetd.Pull.Fetched.{options-plain}

pub priv_key-IsElement : IsElement (text "priv_key")
unfolding split clean_step text_discrete
priv_key-IsElement = (refl, λ rooted stack. refl)

pub peers-IsElement : IsElement (text "peers.json")
unfolding split clean_step text_discrete
peers-IsElement = (refl, λ rooted stack. refl)

pub genesis_peers-IsElement : IsElement (text "peers.genesis.json")
unfolding split clean_step text_discrete
genesis_peers-IsElement = (refl, λ rooted stack. refl)

pub genesis-IsElement : IsElement (text "genesis.json")
unfolding split clean_step text_discrete
genesis-IsElement = (refl, λ rooted stack. refl)

pub toml-IsElement : IsElement (text "monetd.toml")
unfolding split clean_step text_discrete
toml-IsElement = (refl, λ rooted stack. refl)

prompted-Spares : (q p body : Text) → q ≢ p → Spares q (write_to_file p body prompt_if_existing)
unfolding write_to_file
prompted-Spares q p body ne =
    bind-Spares q (process_file_options p prompt_if_existing) _
      (λ w e h. ap (lookup q) (options-plain p true w).0 ∙ h)
      (λ u w e h. write_file-Spares q p body 0o644 ne w e h)

pub dump_global_toml-Spares :
    (q toml dir name : Text) (interactive : Bool)
    → q ≢ join_path (dir ∷ name ∷ [])
    → Spares q (dump_global_toml toml dir name interactive)
unfolding dump_global_toml
dump_global_toml-Spares q toml dir name true ne =
    prompted-Spares q (join_path (dir ∷ name ∷ [])) toml ne
dump_global_toml-Spares q toml dir name false ne =
    silent-Spares q (join_path (dir ∷ name ∷ [])) toml ne

-- When the options are dumped without an error, their file holds them.
pub dump_global_toml-written :
    (toml dir name : Text) (interactive : Bool) (w : World) {w' : World}
    → dump_global_toml toml dir name interactive w ≡ (ok tt, w')
    → (m : ℕ) × (lookup (join_path (dir ∷ name ∷ [])) w'.disk ≡ some (file m toml))
unfolding dump_global_toml write_to_file
dump_global_toml-written toml dir name true w h =
    let path = join_path (dir ∷ name ∷ []) in
    let (u, w1, e, k) = M-eq-ok (process_file_options path prompt_if_existing) _ w h in
    write_file-written path toml 0o644 w1
      (or_error-eq-ok (write_file path toml 0o644) Error.write_failed w1 k)
dump_global_toml-written toml dir name false w h =
    let path = join_path (dir ∷ name ∷ []) in
    write_file-written path toml 0o644 w (silent-eq-ok path toml w h)
