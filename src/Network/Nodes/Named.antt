-- ===== src/Network/Nodes/Named.antt =====
-- The nodes of a file of names, against its entries.
use Prim.Native.Nat.{zero}
use botcoin.Base.{
  ℕ, suc, Text, ◌+◌, ◌-◌, ◌≤◌, ◌<◌, ◌≡◌, refl, true, false, ◌&&◌, List, [], ◌∷◌, arith, take, all,
  ltb, leb, Bool-cases, ◌⊎◌, inl, inr, if◌then◌else◌, text_eq,
}
use botcoin.Base.Bytes.{trim_space}
use botcoin.Base.Result.{Error, Result, ok, err}
use botcoin.Common.{check_moniker}
use botcoin.Network.Nodes.{Node, Plan, is_entry, named_node, add_node, read_names}

-- The lines that describe nodes, in order.
abbrev pub entries : List Text → List Text
entries [] = []
entries (line ∷ lines) =
    let rest = entries lines in if is_entry (trim_space line) then trim_space line ∷ rest else rest

-- The first entries, up to the limit, of which `i` have been read; a limit of 0 is none.
abbrev pub limited : ℕ → ℕ → List Text → List Text
limited zero i lines = lines
limited (suc limit) i lines = take (suc limit - i) lines

limited-cons :
    (limit i : ℕ) (x : Text) (xs : List Text)
    → (limit ≡ 0) ⊎ (i < limit)
    → limited limit i (x ∷ xs) ≡ x ∷ limited limit (i + 1) xs
limited-cons zero i x xs h = refl
limited-cons (suc l) i x xs (inl e) = absurd (omega arith)
limited-cons (suc l) i x xs (inr h) =
    let e : suc l - i ≡ suc (suc l - (i + 1)) = omega arith in rw e

limited-last : (limit i : ℕ) (xs : List Text) → 0 < limit → limit ≤ i → limited limit i xs ≡ []
limited-last zero i xs p h = absurd (omega arith)
limited-last (suc l) i xs p h = let e : suc l - i ≡ 0 = omega arith in rw e

none_taken : (n : ℕ) → take {A = Text} n [] ≡ []
none_taken zero = refl
none_taken (suc n) = refl

zero_or_more : (n : ℕ) → (n ≡ 0) ⊎ (0 < n)
zero_or_more zero = inl refl
zero_or_more (suc n) = inr (omega arith)

module _ (expand_currency : Text → Text) (plan : Plan) where
  -- Entry by entry, numbered from `i`.
  abbrev pub numbered : ℕ → List Text → List Node
  numbered i [] = []
  numbered i (line ∷ lines) = named_node expand_currency plan i line ∷ numbered (i + 1) lines

  abbrev pub checked : List Node → Result (List Node)
  checked nodes =
      if all (λ (n : Node). check_moniker n.moniker) nodes
      then ok nodes
      else err Error.node_name_invalid

  add_node-checked :
      (node : Node) (nodes : List Node)
      → add_node node false (checked nodes) ≡ checked (node ∷ nodes)
  add_node-checked node nodes =
      elim (Bool-cases (all (λ (n : Node). check_moniker n.moniker) nodes)) [
        | inl e ↦ rw e (ground arith)
        | inr e ↦ rw e (ground arith)
      ]

  add_node-last :
      (node : Node) (rest : Result (List Node)) → add_node node true rest ≡ checked (node ∷ [])
  add_node-last node rest = ground arith

  one_entry :
      (limit i : ℕ) (x : Text) (xs : List Text) (rest : Result (List Node))
      → (limit ≡ 0) ⊎ (i < limit)
      → ((limit ≡ 0) ⊎ (i + 1 < limit)
          → rest ≡ checked (numbered (i + 1) (limited limit (i + 1) xs)))
      → add_node (named_node expand_currency plan i x) (ltb 0 limit && leb limit (i + 1)) rest
        ≡ checked (numbered i (limited limit i (x ∷ xs)))
  one_entry limit i x xs rest h k =
      rw (limited-cons limit i x xs h) (elim (Bool-cases (ltb 0 limit && leb limit (i + 1))) [
        | inl last ↦
            let p : 0 < limit = ground arith in
            let q : limit ≤ i + 1 = ground arith in
            rw (last, limited-last limit (i + 1) xs p q) (add_node-last _ rest)
        | inr more ↦
            let q : (limit ≡ 0) ⊎ (i + 1 < limit) = ground arith in
            rw (more, k q) (add_node-checked _ _)
      ])

  none_limited : (limit i : ℕ) → limited limit i [] ≡ []
  none_limited zero i = refl
  none_limited (suc l) i = none_taken (suc l - i)

  read_names-from :
      (limit i : ℕ) (lines : List Text)
      → (limit ≡ 0) ⊎ (i < limit)
      → read_names expand_currency plan limit i lines
        ≡ checked (numbered i (limited limit i (entries lines)))
  unfolding read_names
  read_names-from limit i [] h = rw (none_limited limit i)
  read_names-from limit i (line ∷ lines) h = elim (Bool-cases (is_entry (trim_space line))) [
    | inl entry ↦ rw entry (
        one_entry limit i (trim_space line) (entries lines) _ h
          (read_names-from limit (i + 1) lines))
    | inr other ↦ rw other (read_names-from limit i lines h)
  ]

  -- What is read from the lines: if the names of the entries up to the limit are all valid, one node for
  -- each of them, in order and numbered from 0; otherwise an error. Blank lines and comments are no
  -- entries and are not numbered; a limit of 0 is none; what stands behind the limit is not looked at.
  pub read_names-checked :
      (limit : ℕ) (lines : List Text)
      → read_names expand_currency plan limit 0 lines
        ≡ checked (numbered 0 (limited limit 0 (entries lines)))
  read_names-checked limit lines = read_names-from limit 0 lines (zero_or_more limit)
