-- ===== src/Genesis/Build/Accounts.antt =====
-- `buildAlloc`: the accounts of a directory of key files.
use botcoin.Base.{
  ℕ, Text, ◌≡◌, ◌≢◌, refl, sym, subst, ◌⊎◌, inl, inr, false, some, List, [], ◌∷◌, ◌==◌, text_eq,
  arith, In, Bool-cases, Option-cases,
}
use botcoin.Base.Dict.{lookup, insert, lookup-insert}
use botcoin.Base.Bytes.{text}
use botcoin.Base.Bytes.Path.{join_path, ext}
use botcoin.Base.Result.{ok}
use botcoin.Os.{World, file, read_file, read_dir, child_names}
use botcoin.Os.Rules.{M-eq-ok}
use botcoin.Os.Disk.{read_file-eq-ok, read_dir-eq-ok}
use botcoin.Genesis.Build.{
  Alloc, AllocRecord, Formats, default_account_balance, without_json, add_account, add_accounts,
  build_alloc,
}

-- The account that a key file of the name gets.
abbrev pub account_named : Text → AllocRecord
account_named name = record { balance = default_account_balance; moniker = without_json name }

lookup-empty : (a : Text) (r : AllocRecord) → lookup a [] ≢ some r
unfolding lookup
lookup-empty a r h = cc

module _ (F : Formats) (dir : Text) (w : World) where
  -- The file of the name is one of the directory's key files, and the address in its JSON.
  abbrev pub HasAddress : Text → Text → Type 0
  HasAddress name addr =
      (json : Text) × (m : ℕ) × (lookup (join_path (dir ∷ name ∷ [])) w.disk ≡ some (file m json))
      × (F.key_address json ≡ some addr)

  abbrev pub IsKeyFile : Text → Type 0
  IsKeyFile name = ext name ≡ text ".json"

  -- The account is that of one of the key files.
  abbrev pub FromKeyFile : List Text → Text → AllocRecord → Type 0
  FromKeyFile names addr r =
      (name : Text) × In name names
      × IsKeyFile name
      × HasAddress name addr
      × (r ≡ account_named name)

  -- A key file has an account under its address.
  abbrev pub HasAccount : Alloc → Text → Type 0
  HasAccount alloc name =
      (addr : Text) × (r : AllocRecord) × HasAddress name addr × (lookup addr alloc ≡ some r)

  add_account-eq-ok :
      (name : Text) (alloc : Alloc) {alloc' : Alloc} {w' : World}
      → add_account F dir name alloc w ≡ (ok alloc', w')
      → (addr : Text) × (w' ≡ w)
        × HasAddress name addr
        × (alloc' ≡ insert addr (account_named name) alloc)
  unfolding add_account
  add_account-eq-ok name alloc {alloc'} {w'} h =
      let path = join_path (dir ∷ name ∷ []) in
      let (json, w1, e, h1) = M-eq-ok (read_file path) _ w h in
      let (m, same, there, readable) = read_file-eq-ok path w e in
      elim (Option-cases (F.key_address json)) [
        | inl n ↦ absurd (ground arith)
        | inr (addr, a) ↦ (addr, ground arith, (json, m, there, a), ground arith)
      ]

  -- What a list of names makes of the accounts there are.
  record Collected (names : List Text) (alloc alloc' : Alloc) : Type 0 where
    from :
        (a : Text) (r : AllocRecord)
        → lookup a alloc' ≡ some r
        → (lookup a alloc ≡ some r) ⊎ FromKeyFile names a r
    kept :
        (a : Text) (r : AllocRecord)
        → lookup a alloc ≡ some r
        → (r' : AllocRecord) × (lookup a alloc' ≡ some r')
    each : (name : Text) → In name names → IsKeyFile name → HasAccount alloc' name

  Collected-skip :
      (name : Text) (names : List Text) (alloc alloc' : Alloc)
      → (ext name == text ".json") ≡ false
      → Collected names alloc alloc'
      → Collected (name ∷ names) alloc alloc'
  Collected-skip name names alloc alloc' other c = record {
    from = λ a r h. elim (c.from a r h) [
      | inl e ↦ inl e
      | inr (n, m, k, d, e) ↦ inr (n, inr m, k, d, e)
    ];
    kept = c.kept;
    each = λ n m k. elim m [ inl e ↦ absurd (ground arith) | inr m' ↦ c.each n m' k ];
  }

  Collected-add :
      (name : Text) (names : List Text) (addr : Text) (alloc alloc' : Alloc)
      → IsKeyFile name
      → HasAddress name addr
      → Collected names (insert addr (account_named name) alloc) alloc'
      → Collected (name ∷ names) alloc alloc'
  Collected-add name names addr alloc alloc' is_key has c = record {
    from = λ a r h. elim (c.from a r h) [
      | inl e ↦ added a r e
      | inr (n, m, k, d, e) ↦ inr (n, inr m, k, d, e)
    ];
    kept = λ a r h. keeps a r h;
    each = λ n m k. elim m [
      | inl e ↦
          let (r, there) = c.kept addr (account_named name) (own addr) in
          (addr, r, subst (λ (t : Text). HasAddress t addr) (sym e) has, there)
      | inr m' ↦ c.each n m' k
    ];
  }
    where
      own : (a : Text) → lookup a (insert a (account_named name) alloc) ≡ some (account_named name)
      own a = ground (arith, lookup-insert a a (account_named name) alloc)

      added :
          (a : Text) (r : AllocRecord)
          → lookup a (insert addr (account_named name) alloc) ≡ some r
          → (lookup a alloc ≡ some r) ⊎ FromKeyFile (name ∷ names) a r
      added a r e = elim (Bool-cases (a == addr)) [
        | inl same ↦ inr (
          name,
          inl refl,
          is_key,
          subst (HasAddress name) (ground arith) has,
          ground (arith, lookup-insert a addr (account_named name) alloc),
        )
        | inr ne ↦ inl (ground (arith, lookup-insert a addr (account_named name) alloc))
      ]

      keeps :
          (a : Text) (r : AllocRecord)
          → lookup a alloc ≡ some r
          → (r' : AllocRecord) × (lookup a alloc' ≡ some r')
      keeps a r h = elim (Bool-cases (a == addr)) [
        | inl same ↦
            c.kept a (account_named name)
              (ground (arith, lookup-insert a addr (account_named name) alloc))
        | inr ne ↦ c.kept a r (ground (arith, lookup-insert a addr (account_named name) alloc))
      ]

  add_accounts-Collected :
      (names : List Text) (alloc : Alloc) {alloc' : Alloc} {w' : World}
      → add_accounts F dir names alloc w ≡ (ok alloc', w')
      → (w' ≡ w) × Collected names alloc alloc'
  unfolding add_accounts
  add_accounts-Collected [] alloc {alloc'} h = (
    ground arith,
    record {
      from = λ a r e. inl (ground arith);
      kept = λ a r e. (r, ground arith);
      each = λ n m k. absurd m;
    },
  )
  add_accounts-Collected (name ∷ names) alloc {alloc'} {w'} h =
      elim (Bool-cases (ext name == text ".json")) [
        | inl is_key ↦
            let (alloc1, w1, e, h1) = M-eq-ok (add_account F dir name alloc) _ w (rw is_key at h) in
            let (addr, same, has, shape) = add_account-eq-ok name alloc e in
            let rest : add_accounts F dir names (insert addr (account_named name) alloc) w
                ≡ (ok alloc', w') =
              subst
                (λ v.
                  add_accounts F dir names (insert addr (account_named name) alloc) v
                  ≡ (ok alloc', w'))
                same (subst (λ al. add_accounts F dir names al w1 ≡ (ok alloc', w')) shape h1) in
            let (unchanged, c) = add_accounts-Collected names _ rest in
            (unchanged, Collected-add name names addr alloc alloc' (ground arith) has c)
        | inr other ↦
            let (unchanged, c) = add_accounts-Collected names alloc (rw other at h) in
            (unchanged, Collected-skip name names alloc alloc' other c)
      ]

  -- When the accounts of a directory are read without an error, they are those of its key files: each
  -- account stands under the address in the JSON of a key file whose name it has as its moniker, with
  -- the default balance, each key file has an account under its address, and nothing is changed.
  pub build_alloc-exact :
      {alloc : Alloc} {w' : World}
      → build_alloc F dir w ≡ (ok alloc, w')
      → (w' ≡ w)
        × ((a : Text) (r : AllocRecord)
            → lookup a alloc ≡ some r
            → FromKeyFile (child_names dir w.disk) a r)
        × ((name : Text)
            → In name (child_names dir w.disk)
            → IsKeyFile name
            → HasAccount alloc name)
  unfolding build_alloc
  build_alloc-exact {alloc} {w'} h =
      let (names, w1, e, h1) = M-eq-ok (read_dir dir) _ w h in
      let (same, listing) = read_dir-eq-ok dir w e in
      let run : add_accounts F dir (child_names dir w.disk) [] w ≡ (ok alloc, w') =
        subst (λ v. add_accounts F dir (child_names dir w.disk) [] v ≡ (ok alloc, w')) same
          (subst (λ ns. add_accounts F dir ns [] w1 ≡ (ok alloc, w')) listing h1) in
      let (unchanged, c) = add_accounts-Collected (child_names dir w.disk) [] run in
      (
        unchanged,
        λ a r e'. elim (c.from a r e') [
          | inl none_yet ↦ absurd (lookup-empty a r none_yet)
          | inr found ↦ found
        ],
        c.each,
      )
