-- ===== src/Monetd/Pull/Chosen.antt =====
-- The key that `monetd config pull` uses.
use botcoin.Base.{
  Text, ◌-◌, ◌≡◌, ◌≢◌, refl, sym, ap, ◌∙◌, ◌⊎◌, inl, inr, Bool-cases, List, [], ◌∷◌, map, ◌==◌,
  text_eq, length, take, if◌then◌else◌,
}
use botcoin.Base.Bytes.{text}
use botcoin.Base.Bytes.Path.{ext}
use botcoin.Base.Result.{Result, ok, ok-injective}
use botcoin.Os.{World, lift, read_dir}
use botcoin.Os.Rules.{M-eq-ok}
use botcoin.Monetd.Pull.{key_monikers, only_key, get_default_key, key_or_default}

-- The key files in a listing.
abbrev pub key_files : List Text → List Text
key_files [] = []
key_files (name ∷ names) =
    let rest = key_files names in if ext name == text ".json" then name ∷ rest else rest

-- The moniker that was given, or the name of the only key file in the keystore, without `.json`.
abbrev pub IsChosen : Text → Text → World → Text → Type 0
IsChosen keystore given w moniker =
    ((given ≢ []) × (moniker ≡ given))
    ⊎ ((given ≡ [])
        × ((names : List Text) × (name : Text) × ((read_dir keystore w).0 ≡ ok names)
            × (key_files names ≡ name ∷ [])
            × (moniker ≡ take (length name - 5) name)))

key_monikers-key_files :
    (names : List Text)
    → key_monikers names ≡ map (λ (name : Text). take (length name - 5) name) (key_files names)
unfolding key_monikers
key_monikers-key_files [] = refl
key_monikers-key_files (name ∷ names) = elim (Bool-cases (ext name == text ".json")) [
  | inl e ↦ rw (e, key_monikers-key_files names) refl
  | inr e ↦ rw (e, key_monikers-key_files names) refl
]

only_key-only :
    (files : List Text) {moniker : Text}
    → only_key (map (λ (name : Text). take (length name - 5) name) files) ≡ ok moniker
    → (name : Text) × (files ≡ name ∷ []) × (moniker ≡ take (length name - 5) name)
only_key-only [] h = absurd (cc)
only_key-only (name ∷ []) h = (name, refl, sym (ok-injective h))
only_key-only (name ∷ other ∷ files) h = absurd (cc)

pub key_or_default-IsChosen :
    (keystore given : Text) (w : World) {moniker : Text} {w' : World}
    → key_or_default keystore given w ≡ (ok moniker, w')
    → IsChosen keystore given w moniker
unfolding get_default_key
key_or_default-IsChosen keystore (c ∷ given) w h =
    inl ((λ e. cc), sym (ok-injective (ap (λ (p : Result Text × World). p.0) h)))
key_or_default-IsChosen keystore [] w h =
    let (names, w1, e, k) =
      M-eq-ok (read_dir keystore) (λ names. lift (only_key (key_monikers names))) w h in
    let (name, only, same) = only_key-only (key_files names) (
      ap only_key (sym (key_monikers-key_files names)) ∙ ap (λ (p : Result Text × World). p.0) k) in
    inr (refl, (names, name, ap (λ (p : Result (List Text) × World). p.0) e, only, same))
