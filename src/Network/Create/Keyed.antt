-- ===== src/Network/Create/Keyed.antt =====
-- The addresses and the public keys of the nodes of a new network, against their key files.
use botcoin.Base.{
  ℕ, Text, ◌+◌, ◌≡◌, ◌≢◌, refl, sym, ap, subst, ◌∙◌, Bool, true, false, not, Option, some, List, [],
  ◌∷◌, ◌++◌, ◌==◌, text_eq, All, map, if◌then◌else◌,
}
use botcoin.Base.Dict.{lookup}
use botcoin.Base.Bytes.{text, trim_space}
use botcoin.Base.Bytes.Path.{dir, join_path}
use botcoin.Base.Result.{Error, Result, ok, ok-injective}
use botcoin.Os.{
  World, file, M, ◌>>=◌, fail_if, mkdir_all, open_path, create_file, copy_bytes, ignore,
}
use botcoin.Os.Rules.{M-eq-ok}
use botcoin.Os.Spares.{
  Spares, Keeps-Spares, bind-Spares, ignore-Spares, mkdir_all-Spares, write_file-Spares,
  open_path-Spares, create_file-Spares, copy_bytes-Spares, sync_file-Spares,
}
use botcoin.Common.{check_moniker}
use botcoin.Files.{
  check_if_exists, create_dirs_if_not_exists, write_to_file_private, copy_file_contents,
}
use botcoin.Crypto.{
  keyfile_path, or_default, new_keyfile, new_keyfile_full, get_passphrase, prompt_passphrase,
}
use botcoin.Crypto.Types.{Ethereum, Decrypts}
use botcoin.Crypto.Keep.{new_keyfile_full-Keeps}
use botcoin.Crypto.Holds.{HoldsKey, generate_keyfile-HoldsKey}
use botcoin.Network.Nodes.{Node}
use botcoin.Network.Create.{Flags, ask_passphrase, node_pass_file, generate_node_keys}

write_to_file_private-Spares : (q p body : Text) → q ≢ p → Spares q (write_to_file_private p body)
unfolding write_to_file_private
write_to_file_private-Spares q p body ne =
    bind-Spares q (mkdir_all (dir p)) _ (mkdir_all-Spares q (dir p))
      (λ u. write_file-Spares q p body 0o600 ne)

copy_file_contents-Spares : (q src dst : Text) → q ≢ dst → Spares q (copy_file_contents src dst)
unfolding copy_file_contents
copy_file_contents-Spares q src dst ne =
    bind-Spares q (open_path src) _ (open_path-Spares q src) (λ u.
      bind-Spares q (create_file dst) _ (create_file-Spares q dst ne) (λ u'.
        bind-Spares q (copy_bytes src dst) _ (copy_bytes-Spares q src dst ne)
          (λ u''. sync_file-Spares q dst)))

ask_passphrase-Spares : (q : Text) → Spares q ask_passphrase
unfolding get_passphrase prompt_passphrase
ask_passphrase-Spares q w e h = h

-- The passphrase file of a node is the only file that is written for it before its key file.
node_pass_file-Spares :
    (flags : Flags) (q shared own random : Text)
    → flags.generate_pass_key ≡ false
    → q ≢ own
    → Spares q (node_pass_file flags shared own random)
unfolding node_pass_file
node_pass_file-Spares flags q shared own random kept ne =
    rw kept (by_flag flags.no_save_pass_key (shared == []))
  where
    by_flag :
        (no_save empty : Bool)
        → Spares q (
            if◌then◌else◌ {A = M Text} no_save
              (λ w. (ok shared, w))
              (if◌then◌else◌ {A = M Text} empty
                (ask_passphrase >>= λ phrase.
                  ignore (write_to_file_private own phrase) >>= λ u. λ w. (ok own, w))
                (ignore (copy_file_contents shared own) >>= λ u. λ w. (ok own, w))))
    by_flag true empty = λ w e h. h
    by_flag false true =
        bind-Spares {B = Text} q ask_passphrase
          (λ phrase. ignore (write_to_file_private own phrase) >>= λ u w. (ok own, w))
          (ask_passphrase-Spares q)
          (λ phrase.
            bind-Spares {B = Text} q (ignore (write_to_file_private own phrase))
              (λ u w. (ok own, w))
              (ignore-Spares q (write_to_file_private own phrase)
                (write_to_file_private-Spares q own phrase ne))
              (λ u w e h. h))
    by_flag false false =
        bind-Spares {B = Text} q (ignore (copy_file_contents shared own)) (λ u w. (ok own, w))
          (ignore-Spares q (copy_file_contents shared own)
            (copy_file_contents-Spares q shared own ne))
          (λ u w e h. h)

module _ (E : Ethereum) where
  -- A key file that has been made for a moniker holds the key that is returned.
  new_keyfile-HoldsKey :
      (keystore moniker pass : Text) (random : Option E.Key) (w : World) {key : E.Key} {w' : World}
      → Decrypts E
      → new_keyfile E keystore moniker pass random w ≡ (ok key, w')
      → HoldsKey E w' (or_default (keyfile_path keystore moniker)) key
  unfolding new_keyfile new_keyfile_full
  new_keyfile-HoldsKey keystore moniker pass random w laws h =
      let (u1, w1, e1, h1) =
        M-eq-ok (fail_if (trim_space moniker == []) Error.moniker_unset) _ w h in
      let (u2, w2, e2, h2) =
        M-eq-ok (fail_if (not (check_moniker moniker)) Error.moniker_invalid) _ w1 h1 in
      let (u3, w3, e3, h3) = M-eq-ok (create_dirs_if_not_exists (keystore ∷ [])) _ w2 h2 in
      let (u4, w4, e4, h4) =
        M-eq-ok (fail_if (check_if_exists (keyfile_path keystore moniker) w3) Error.moniker_exists)
          _ w3 h3 in
      (generate_keyfile-HoldsKey E (keyfile_path keystore moniker) pass [] random w4 laws h4).1

  abbrev pub own_file : Text → Node → Text
  own_file keystore n = join_path (keystore ∷ (n.moniker ++ text ".txt") ∷ [])

  abbrev pub key_file_of : Text → Node → Text
  key_file_of keystore n = or_default (keyfile_path keystore n.moniker)

  -- No key file stands where a later node has its passphrase.
  abbrev pub AreApart : Text → List Node → Type 0
  AreApart keystore [] = Unit
  AreApart keystore (n ∷ nodes) =
      All (λ m. key_file_of keystore n ≢ own_file keystore m) nodes × AreApart keystore nodes

  -- The node names the key that its key file holds.
  abbrev pub IsKeyed : Text → World → Node → Type 0
  IsKeyed keystore w n =
      (key : E.Key) × HoldsKey E w (key_file_of keystore n) key
      × (n.address ≡ E.address_eip55 key)
      × (n.pub_key_hex ≡ E.public_hex key)

  -- A node without what its key gives it.
  abbrev pub outline : Node → Node
  outline n = record n { address = []; pub_key_hex = [] }

  module _ (random_key : ℕ → Option E.Key) (random_pass : ℕ → Text) where
    generate_node_keys-Spares :
        (flags : Flags) (q shared keystore : Text) (i : ℕ) (nodes : List Node)
        → flags.generate_pass_key ≡ false
        → All (λ m. q ≢ own_file keystore m) nodes
        → Spares q (generate_node_keys E random_key random_pass flags shared keystore i nodes)
    unfolding generate_node_keys new_keyfile
    generate_node_keys-Spares flags q shared keystore i [] kept others = λ w e h. h
    generate_node_keys-Spares flags q shared keystore i (n ∷ nodes) kept others =
        bind-Spares {B = List Node} q
          (node_pass_file flags shared (own_file keystore n) (random_pass i)) _
          (node_pass_file-Spares flags q shared (own_file keystore n) (random_pass i) kept others.0)
          (λ pass.
            bind-Spares {B = List Node} q (new_keyfile E keystore n.moniker pass (random_key i)) _
              (Keeps-Spares q (new_keyfile E keystore n.moniker pass (random_key i))
                (new_keyfile_full-Keeps E keystore n.moniker pass [] (random_key i)))
              (λ key.
                bind-Spares {B = List Node} q
                  (generate_node_keys E random_key random_pass flags shared keystore (i + 1) nodes)
                  _ (generate_node_keys-Spares flags q shared keystore (i + 1) nodes kept others.1)
                  (λ rest w e h. h)))

    -- When the keys of the nodes of a network are made without an error, and no passphrases are generated,
    -- every node carries the address and the public key of the key that its own key file holds in the end,
    -- under its moniker, and the nodes are otherwise as they were, in order. It is assumed that go-ethereum
    -- decrypts what it encrypts and that no key file stands where a later node has its passphrase.
    pub generate_node_keys-IsKeyed :
        (flags : Flags) (shared keystore : Text) (i : ℕ) (nodes : List Node) (w : World)
        {made : List Node} {w' : World}
        → Decrypts E
        → flags.generate_pass_key ≡ false
        → AreApart keystore nodes
        → generate_node_keys E random_key random_pass flags shared keystore i nodes w
          ≡ (ok made, w')
        → All (IsKeyed keystore w') made × (map outline made ≡ map outline nodes)
    unfolding generate_node_keys
    generate_node_keys-IsKeyed flags shared keystore i [] w {made} {w'} laws kept apart h =
        let none_made = ok-injective (ap (λ (r : Result (List Node) × World). r.0) h) in
        subst (λ ns. All (IsKeyed keystore w') ns × (map outline ns ≡ [])) none_made (tt, refl)
    generate_node_keys-IsKeyed flags shared keystore i (n ∷ nodes) w {made} {w'} laws kept apart h =
        let (pass, w1, e1, h1) =
          M-eq-ok (node_pass_file flags shared (own_file keystore n) (random_pass i)) _ w h in
        let (key, w2, e2, h2) =
          M-eq-ok (new_keyfile E keystore n.moniker pass (random_key i)) _ w1 h1 in
        let (rest, w3, e3, h3) =
          M-eq-ok (generate_node_keys E random_key random_pass flags shared keystore (i + 1) nodes)
            _ w2 h2 in
        let ends = ap (λ (r : Result (List Node) × World). r.1) h3 in
        let (m, json, phrase, there, opens) =
          new_keyfile-HoldsKey keystore n.moniker pass (random_key i) w1 laws e2 in
        let stays =
          ap (λ (r : Result (List Node) × World). lookup (key_file_of keystore n) r.1.disk) (sym e3)
          ∙ generate_node_keys-Spares flags (key_file_of keystore n) shared keystore (i + 1) nodes
              kept apart.0 w2 _ there in
        let (others, same) =
          generate_node_keys-IsKeyed flags shared keystore (i + 1) nodes w2 laws kept apart.1 e3 in
        let named : Node = record n {
          address = E.address_eip55 key;
          pub_key_hex = E.public_hex key;
        } in
        let shape : named ∷ rest ≡ made =
          ok-injective (ap (λ (r : Result (List Node) × World). r.0) h3) in
        let all : All (IsKeyed keystore w') (named ∷ rest) = (
          (
            key,
            (
              m,
              json,
              phrase,
              subst (λ (v : World). lookup (key_file_of keystore n) v.disk ≡ some (file m json))
                  ends stays,
              opens,
            ),
            refl,
            refl,
          ),
          subst (λ v. All (IsKeyed keystore v) rest) ends others,
        ) in
        subst
          (λ ns. All (IsKeyed keystore w') ns × (map outline ns ≡ outline n ∷ map outline nodes))
          shape (all, ap (λ ns. outline n ∷ ns) same)
