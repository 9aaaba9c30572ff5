-- ===== src/Crypto/Vault.antt =====
-- The key files as a vault of keys: what a sequence of `giverny keys new` and `giverny keys update` does
-- to them, whatever its steps end with. The vault forgets passphrases, modes, and the text of the files.
use botcoin.Base.{
  Text, ◌≡◌, ◌≢◌, refl, ap, sym, subst, ◌∙◌, none, some, Option, List, [], ◌∷◌, text_discrete, inl,
  inr, arith, text_eq,
}
use mathlib.Core.Option.{some-injective}
use botcoin.Base.Dict.{
  Dict, lookup, insert, erase, lookup-erase, lookup-insert_self, lookup-insert_ne,
}
use botcoin.Base.Result.{Error, Result, ok, err, panic, hang}
use botcoin.Os.{World, M}
use botcoin.Os.Rules.{Keeps}
use botcoin.Crypto.{or_default, generate_keyfile, update_key}
use botcoin.Crypto.Keep.{generate_keyfile-Keeps}
use botcoin.Crypto.Update.{update_key-failed}
use botcoin.Crypto.Holds.{IsAuthentic, HoldsKey, generate_keyfile-HoldsKey, update_key-HoldsKey}
use botcoin.Crypto.Types.{Ethereum, Decrypts}

module _ (E : Ethereum) where
  -- A key file to create, with what would be drawn for it, or the passphrase of one to change.
  pub data Command : Type 0 where
    create : Text → Text → Text → Option E.Key → Command
    change : Text → Text → Text → Command

  abbrev reported : {A : Type 0} → (A → Option E.Key) → Result A → Result (Option E.Key)
  reported f (ok a) = ok (f a)
  reported f (err e) = err e
  reported f panic = panic
  reported f hang = hang

  unfoldable pub exec : Command → M (Option E.Key)
  exec (create path pw pk random) w =
      let (r, w') = generate_keyfile E path pw pk random w in (reported (λ k. some k) r, w')
  exec (change path pw new) w =
      let (r, w') = update_key E path pw new w in (reported (λ u. none) r, w')

  unfoldable pub exec_all : List Command → World → List (Result (Option E.Key)) × World
  exec_all [] w = ([], w)
  exec_all (c ∷ cs) w = let (r, w1) = exec c w in let (rs, w2) = exec_all cs w1 in (r ∷ rs, w2)

  -- What a command may do to a vault, by what it ends with: a key enters it at a path that is free,
  -- a change that fails in its write may lose the key that it is about, and nothing else ever changes.
  pub data VaultStep : Command → Result (Option E.Key) → Dict E.Key → Dict E.Key → Type 0 where
    created :
        {path pw pk : Text} {random : Option E.Key} {key : E.Key} {v : Dict E.Key}
        → lookup (or_default path) v ≡ none
        → VaultStep (create path pw pk random) (ok (some key)) v (insert (or_default path) key v)
    changed : {path pw new : Text} {v : Dict E.Key} → VaultStep (change path pw new) (ok none) v v
    spoiled :
        {path pw new : Text} {v : Dict E.Key}
        → VaultStep (change path pw new) (err Error.keyfile_write) v (erase path v)
    refused :
        {c : Command} {r : Result (Option E.Key)} {v : Dict E.Key}
        → ((o : Option E.Key) → r ≢ ok o)
        → VaultStep c r v v

  pub data VaultRun
      : List Command → List (Result (Option E.Key)) → Dict E.Key → Dict E.Key → Type 0 where
    stop : {v : Dict E.Key} → VaultRun [] [] v v
    next :
        {c : Command} {r : Result (Option E.Key)} {cs : List Command}
        {rs : List (Result (Option E.Key))} {v v1 v2 : Dict E.Key}
        → VaultStep c r v v1
        → VaultRun cs rs v1 v2
        → VaultRun (c ∷ cs) (r ∷ rs) v v2

  -- The files that a vault stands for.
  abbrev pub Represents : Dict E.Key → World → Type 0
  Represents v w = (path : Text) (key : E.Key) → lookup path v ≡ some key → HoldsKey E w path key

  Represents-Keeps : (v : Dict E.Key) (w w' : World) → Represents v w → Keeps w w' → Represents v w'
  Represents-Keeps v w w' rep kept path key h =
      let (m, json, phrase, there, opens) = rep path key h in
      (m, json, phrase, kept path _ there, opens)

  -- A path where nothing stands has no key.
  free_in_vault :
      (v : Dict E.Key) (w : World) (path : Text)
      → Represents v w
      → lookup path w.disk ≡ none
      → lookup path v ≡ none
  free_in_vault v w path rep free = by_key (lookup path v) refl
    where
      by_key : (o : Option E.Key) → lookup path v ≡ o → lookup path v ≡ none
      by_key none e = e
      by_key (some key) e = let (m, json, phrase, there, opens) = rep path key e in absurd (cc)

  Represents-insert :
      (v : Dict E.Key) (w : World) (path : Text) (key : E.Key)
      → Represents v w
      → HoldsKey E w path key
      → Represents (insert path key v) w
  Represents-insert v w path key rep new p k h = elim (text_discrete p path) [
    | yes e ↦
        let same : key ≡ k = some-injective _ _ (
          sym (lookup-insert_self path key v)
          ∙ ap (λ x. lookup x (insert path key v)) (sym e)
          ∙ h) in
        subst (λ x. HoldsKey E w x k) (sym e) (subst (HoldsKey E w path) same new)
    | no n ↦ rep p k (sym (lookup-insert_ne p path key v n) ∙ h)
  ]

  HoldsKey-unique :
      (w : World) (path : Text) (k l : E.Key)
      → IsAuthentic E
      → HoldsKey E w path k
      → HoldsKey E w path l
      → k ≡ l
  HoldsKey-unique w path k l authentic (m, json, a, there, opens) (m', json', b, there', opens') =
      let same : json' ≡ json = cc in
      authentic json a b k l opens (subst (λ x. E.decrypt_key x b ≡ some l) same opens')

  Represents-changed :
      (v : Dict E.Key) (w w' : World) (path : Text) (key : E.Key)
      → IsAuthentic E
      → Represents v w
      → HoldsKey E w path key
      → HoldsKey E w' path key
      → ((r : Text) → r ≢ path → lookup r w'.disk ≡ lookup r w.disk)
      → Represents v w'
  Represents-changed v w w' path key authentic rep before after others p k h =
      elim (text_discrete p path) [
        | yes e ↦
            let same =
              HoldsKey-unique w path key k authentic before
                (subst (λ x. HoldsKey E w x k) e (rep p k h)) in
            subst (λ x. HoldsKey E w' x k) (sym e) (subst (HoldsKey E w' path) same after)
        | no n ↦
            let (m, json, phrase, there, opens) = rep p k h in
            (m, json, phrase, others p n ∙ there, opens)
      ]

  -- Where only one file is changed, the other keys stand.
  Represents-erase :
      (v : Dict E.Key) (w w' : World) (path : Text)
      → Represents v w
      → ((r : Text) → r ≢ path → lookup r w'.disk ≡ lookup r w.disk)
      → Represents (erase path v) w'
  Represents-erase v w w' path rep others p k h = elim (text_discrete p path) [
    | yes e ↦
        let gone : lookup p (erase path v) ≡ none = ground (arith, lookup-erase p path v) in
        absurd (cc)
    | no n ↦
        let still : lookup p v ≡ some k = ground (arith, lookup-erase p path v) in
        let (m, json, phrase, there, opens) = rep p k still in
        (m, json, phrase, others p n ∙ there, opens)
  ]

  create-refines :
      (path pw pk : Text) (random : Option E.Key) (v : Dict E.Key) (w : World)
      → Decrypts E
      → Represents v w
      → let (r, w') = exec (create path pw pk random) w in
        (v' : Dict E.Key) × VaultStep (create path pw pk random) r v v' × Represents v' w'
  unfolding exec
  create-refines path pw pk random v w laws rep =
      by_result (generate_keyfile E path pw pk random w).0 refl
    where
      w' : World
      w' = (generate_keyfile E path pw pk random w).1

      kept : Represents v w'
      kept = Represents-Keeps v w w' rep (generate_keyfile-Keeps E path pw pk random w)

      by_result :
          (r : Result E.Key)
          → (generate_keyfile E path pw pk random w).0 ≡ r
          → (v' : Dict E.Key) × VaultStep (create path pw pk random) (reported (λ k. some k) r) v v'
            × Represents v' w'
      by_result (ok key) e =
          let (free, new) = generate_keyfile-HoldsKey E path pw pk random w laws (λ i. (e i, w')) in
          (
            insert (or_default path) key v,
            created (free_in_vault v w (or_default path) rep free),
            Represents-insert v w' (or_default path) key kept new,
          )
      by_result (err x) e = (v, refused (λ o f. cc), kept)
      by_result panic e = (v, refused (λ o f. cc), kept)
      by_result hang e = (v, refused (λ o f. cc), kept)

  change-refines :
      (path pw new : Text) (v : Dict E.Key) (w : World)
      → Decrypts E
      → IsAuthentic E
      → Represents v w
      → let (r, w') = exec (change path pw new) w in
        (v' : Dict E.Key) × VaultStep (change path pw new) r v v' × Represents v' w'
  unfolding exec
  change-refines path pw new v w laws authentic rep = by_result (update_key E path pw new w).0 refl
    where
      w' : World
      w' = (update_key E path pw new w).1

      failed :
          (r : Result (Unit {0}))
          → (update_key E path pw new w).0 ≡ r
          → r ≢ ok tt
          → ((o : Option E.Key) → reported (λ u. none) r ≢ ok o)
          → (v' : Dict E.Key) × VaultStep (change path pw new) (reported (λ u. none) r) v v'
            × Represents v' w'
      failed r e not_ok refusal =
          elim (update_key-failed E path pw new w (λ f. not_ok (sym e ∙ f))) [
            | inl same ↦
                (v, refused refusal, Represents-Keeps v w w' rep (λ q x h. ap (lookup q) same ∙ h))
            | inr (cut, said, others) ↦ (
              erase path v,
              subst (λ x. VaultStep (change path pw new) (reported (λ u. none) x) v (erase path v))
                  (sym said ∙ e) spoiled,
              Represents-erase v w w' path rep others,
            )
          ]

      by_result :
          (r : Result (Unit {0}))
          → (update_key E path pw new w).0 ≡ r
          → (v' : Dict E.Key) × VaultStep (change path pw new) (reported (λ u. none) r) v v'
            × Represents v' w'
      by_result (ok tt) e =
          let (key, before, after, others) =
            update_key-HoldsKey E path pw new w laws (λ i. (e i, w')) in
          (v, changed, Represents-changed v w w' path key authentic rep before after others)
      by_result (err x) e = failed (err x) e (λ f. cc) (λ o f. cc)
      by_result panic e = failed panic e (λ f. cc) (λ o f. cc)
      by_result hang e = failed hang e (λ f. cc) (λ o f. cc)

  exec-refines :
      (c : Command) (v : Dict E.Key) (w : World)
      → Decrypts E
      → IsAuthentic E
      → Represents v w
      → let (r, w') = exec c w in (v' : Dict E.Key) × VaultStep c r v v' × Represents v' w'
  exec-refines (create path pw pk random) v w laws authentic rep =
      create-refines path pw pk random v w laws rep
  exec-refines (change path pw new) v w laws authentic rep =
      change-refines path pw new v w laws authentic rep

  -- Where the files of a vault of keys stand, any sequence of commands that create key files and change
  -- passphrases, whatever each of them ends with, is a run of the vault, in which a key enters at a free
  -- path when a creation succeeds, the key of a change leaves at most where that fails in its write, and
  -- nothing else changes; and in the end the files of the new vault stand. It is assumed that go-ethereum
  -- decrypts what it encrypts, and that no two passphrases decrypt one file to different keys.
  pub exec_all-refines :
      (cs : List Command) (v : Dict E.Key) (w : World)
      → Decrypts E
      → IsAuthentic E
      → Represents v w
      → let (rs, w') = exec_all cs w in (v' : Dict E.Key) × VaultRun cs rs v v' × Represents v' w'
  unfolding exec_all
  exec_all-refines [] v w laws authentic rep = (v, stop, rep)
  exec_all-refines (c ∷ cs) v w laws authentic rep =
      let (v1, step, rep1) = exec-refines c v w laws authentic rep in
      let (v2, run, rep2) = exec_all-refines cs v1 (exec c w).1 laws authentic rep1 in
      (v2, next step run, rep2)
