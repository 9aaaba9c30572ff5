-- ===== src/Base/Bytes/Path/Joined.antt =====
-- Joining a directory and a name: different names give different paths.
use Prim.Native.Nat.{ℕ}
use mathlib.Core.Path.{◌≡◌, refl, sym, ap, subst, ◌∙◌}
use mathlib.Core.Logic.{◌≢◌, inl, inr}
use mathlib.Core.Bool.{Bool, true, false, not, ◌||◌}
use mathlib.Core.List.{
  List, [], ◌∷◌, ◌++◌, foldl, reverse, append_assoc, reverse-append, foldl-append,
}
use native.Mathlib.Omega.{arith}
use botcoin.Base.Test.{Text, ◌==◌, nat_eq, text_eq, Bool-cases, tail-eq}
use botcoin.Base.Bytes.{split, join}
use botcoin.Base.Bytes.Path.{slash, clean_step, assemble, clean, join_path}

-- The name is one element of a path, which cleaning keeps.
abbrev pub IsElement : Text → Type 0
IsElement name =
    (split b'/' name ≡ name ∷ [])
    × ((rooted : Bool) (stack : List Text) → clean_step rooted stack name ≡ name ∷ stack)

split-cons : (s : Text) → (p : Text) × (ps : List Text) × (split b'/' s ≡ p ∷ ps)
unfolding split
split-cons [] = ([], [], refl)
split-cons (x ∷ s) = elim (Bool-cases (x == b'/')) [
  | inl e ↦ ([], split b'/' s, rw e)
  | inr e ↦ let (p, ps, h) = split-cons s in (x ∷ p, ps, rw e (rw h))
]

split-append :
    (s name : Text)
    → split b'/' name ≡ name ∷ []
    → split b'/' (s ++ (b'/' ∷ name)) ≡ split b'/' s ++ (name ∷ [])
unfolding split
split-append [] name h = rw h
split-append (x ∷ s) name h =
    let (p, ps, e) = split-cons s in
    elim (Bool-cases (x == b'/')) [
      | inl k ↦ rw (k, split-append s name h)
      | inr k ↦ rw (k, split-append s name h) (rw e)
    ]

-- What stands before the last of the parts that are joined.
pub join-append :
    (xs : List Text) → (t : Text) × ((name : Text) → join slash (xs ++ (name ∷ [])) ≡ t ++ name)
unfolding join
join-append [] = ([], λ name. refl)
join-append (x ∷ []) = (x ++ slash, λ name. sym (append_assoc x slash name))
join-append (x ∷ y ∷ xs) =
    let (t, e) = join-append (y ∷ xs) in
    (x ++ (slash ++ t), λ name. rw (e name) (rw (append_assoc, append_assoc)))

pub assemble-append :
    (rooted : Bool) (t : Text)
    → (u : Text) × ((name : Text) → name ≢ [] → assemble rooted (t ++ name) ≡ u ++ name)
assemble-append true t = (b'/' ∷ t, λ name ne. refl)
assemble-append false (c ∷ t) = (c ∷ t, λ name ne. refl)
assemble-append false [] = ([], plain)
  where
    plain : (name : Text) → name ≢ [] → assemble false name ≡ name
    plain [] ne = absurd (ne refl)
    plain (c ∷ name) ne = refl

clean-append :
    (d : ℕ) (s : Text)
    → (t : Text) × ((name : Text)
        → name ≢ []
        → IsElement name
        → clean ((d ∷ s) ++ (b'/' ∷ name)) ≡ t ++ name)
unfolding clean
clean-append d s =
    let rooted = d == b'/' in
    let before : List Text = foldl (clean_step rooted) [] (split b'/' (d ∷ s)) in
    let (t, e) = join-append (reverse before) in
    let (u, e') = assemble-append rooted t in
    (
      u,
      λ name ne (one, kept).
          rw (split-append (d ∷ s) name one, foldl-append, kept rooted)
            (subst (λ (parts : List Text). assemble rooted (join slash parts) ≡ u ++ name)
              (sym (reverse-append (name ∷ []) before))
              (ap (assemble rooted) (e name) ∙ e' name ne)),
    )

clean-element : (name : Text) → name ≢ [] → IsElement name → clean name ≡ name
unfolding clean split join
clean-element [] ne h = absurd (ne refl)
clean-element (c ∷ name) ne (one, kept) = elim (Bool-cases (c == b'/')) [
  | inl e ↦ absurd (ground arith)
  | inr e ↦ rw (one, kept (c == b'/'), e) refl
]

-- A name that is joined to a directory stands at the end of the path, behind what the directory gives.
join_path-append :
    (dir : Text)
    → (t : Text) × ((name : Text)
        → name ≢ []
        → IsElement name
        → join_path (dir ∷ name ∷ []) ≡ t ++ name)
unfolding join_path join
join_path-append [] = ([], plain)
  where
    plain : (name : Text) → name ≢ [] → IsElement name → join_path ([] ∷ name ∷ []) ≡ name
    plain [] ne h = absurd (ne refl)
    plain (c ∷ name) ne h = clean-element (c ∷ name) ne h
join_path-append (d ∷ dir) = clean-append d dir

append-cancel_left : (t s s' : Text) → t ++ s ≡ t ++ s' → s ≡ s'
append-cancel_left [] s s' e = e
append-cancel_left (c ∷ t) s s' e = append-cancel_left t s s' (tail-eq e)

-- Different names give different paths in a directory.
pub join_path-injective :
    (dir name name' : Text)
    → name ≢ []
    → name' ≢ []
    → IsElement name
    → IsElement name'
    → join_path (dir ∷ name ∷ []) ≡ join_path (dir ∷ name' ∷ [])
    → name ≡ name'
join_path-injective dir name name' ne ne' h h' e =
    let (t, p) = join_path-append dir in
    append-cancel_left t name name' (sym (p name ne h) ∙ e ∙ p name' ne' h')

-- Two texts that differ at an index that both have.
abbrev pub differ : Text → Text → Bool
differ [] t = false
differ (x ∷ s) [] = false
differ (x ∷ s) (y ∷ t) = not (x == y) || differ s t

differ-append : (s t u v : Text) → differ s t ≡ true → s ++ u ≢ t ++ v
differ-append [] t u v d e = cc
differ-append (x ∷ s) [] u v d e = cc
differ-append (x ∷ s) (y ∷ t) u v d e = elim (Bool-cases (x == y)) [
  | inl k ↦ differ-append s t u v (ground arith) (tail-eq e)
  | inr k ↦ ground arith
]

abbrev pub EndsWith : Text → Text → Type 0
EndsWith s name = (t : Text) × (s ≡ t ++ name)

pub join_path-EndsWith :
    (dir name : Text) → name ≢ [] → IsElement name → EndsWith (join_path (dir ∷ name ∷ [])) name
join_path-EndsWith dir name ne h = let (t, e) = join_path-append dir in (t, e name ne h)

-- So too below a directory of the directory.
pub join_path_below-EndsWith :
    (dir below name : Text)
    → below ≢ []
    → name ≢ []
    → IsElement name
    → EndsWith (join_path (dir ∷ below ∷ name ∷ [])) name
unfolding join_path join
join_path_below-EndsWith dir [] name nb ne h = absurd (nb refl)
join_path_below-EndsWith [] (b ∷ below) name nb ne h =
    let (t, e) = clean-append b below in (t, e name ne h)
join_path_below-EndsWith (d ∷ dir) (b ∷ below) name nb ne h =
    let (t, e) = clean-append d (dir ++ (b'/' ∷ b ∷ below)) in
    (t, ap clean (ap (λ (u : Text). d ∷ u) (sym (append_assoc dir _ _))) ∙ e name ne h)

-- Texts that end differently are different.
pub EndsWith-ne :
    (s s' name name' : Text)
    → EndsWith s name
    → EndsWith s' name'
    → differ (reverse name) (reverse name') ≡ true
    → s ≢ s'
EndsWith-ne s s' name name' (t, e) (t', e') d same =
    differ-append (reverse name) (reverse name') (reverse t) (reverse t') d
      (sym (reverse-append t name) ∙ ap reverse (sym e ∙ same ∙ e') ∙ reverse-append t' name')

-- What stands before the last two of the parts that are joined.
join-append_two :
    (xs : List Text)
    → (t : Text) × ((a b : Text) → join slash (xs ++ (a ∷ b ∷ [])) ≡ t ++ (a ++ (b'/' ∷ b)))
unfolding join
join-append_two [] = ([], λ a b. refl)
join-append_two (x ∷ []) = (x ++ slash, λ a b. sym (append_assoc x slash (a ++ (b'/' ∷ b))))
join-append_two (x ∷ y ∷ xs) =
    let (t, e) = join-append_two (y ∷ xs) in
    (x ++ (slash ++ t), λ a b. rw (e a b) (rw (append_assoc, append_assoc)))

-- A name below an element of a directory stands at the end of the path behind the element.
pub join_path_element-EndsWith :
    (d : ℕ) (dir : Text) (b : ℕ) (below name : Text)
    → IsElement (b ∷ below)
    → IsElement name
    → EndsWith (join_path ((d ∷ dir) ∷ (b ∷ below) ∷ name ∷ [])) ((b ∷ below) ++ (b'/' ∷ name))
unfolding join_path join clean
join_path_element-EndsWith d dir b below name (one, kept) (one', kept') =
    let rooted = d == b'/' in
    let before : List Text = foldl (clean_step rooted) [] (split b'/' (d ∷ dir)) in
    let (t, e) = join-append_two (reverse before) in
    let (u, e') = assemble-append rooted t in
    let parts : split b'/' ((d ∷ dir) ++ (b'/' ∷ ((b ∷ below) ++ (b'/' ∷ name))))
        ≡ (split b'/' (d ∷ dir) ++ ((b ∷ below) ∷ [])) ++ (name ∷ []) =
      ap (split b'/') (sym (append_assoc (d ∷ dir) (b'/' ∷ b ∷ below) (b'/' ∷ name)))
      ∙ split-append ((d ∷ dir) ++ (b'/' ∷ b ∷ below)) name one'
      ∙ ap (λ (ps : List Text). ps ++ (name ∷ [])) (split-append (d ∷ dir) (b ∷ below) one) in
    (
      u,
      rw (parts, foldl-append, foldl-append, kept rooted, kept' rooted)
          (subst
            (λ (ps : List Text).
              assemble rooted (join slash ps) ≡ u ++ ((b ∷ below) ++ (b'/' ∷ name)))
            (sym (reverse-append (name ∷ (b ∷ below) ∷ []) before))
            (ap (assemble rooted) (e (b ∷ below) name)
              ∙ e' ((b ∷ below) ++ (b'/' ∷ name)) (λ z. cc))),
    )
