-- ===== src/Base/Bytes/Path/Suffix.antt =====
-- An ending of a name that has no slash is the ending of the path that the name is joined to.
use mathlib.Core.Path.{◌≡◌, refl, sym, ap, subst, ◌∙◌}
use mathlib.Core.Logic.{inl, inr}
use mathlib.Core.Bool.{Bool, false}
use mathlib.Core.List.{
  List, [], ◌∷◌, ◌++◌, foldl, reverse, append_assoc, reverse-append, foldl-append,
}
use native.Mathlib.Omega.{arith}
use Prim.Native.Nat.{◌≤◌}
use botcoin.Base.Test.{Text, ◌==◌, nat_eq, text_eq, Bool-cases}
use botcoin.Base.Lists.{length, length-append}
use botcoin.Base.Bytes.{split, join}
use botcoin.Base.Bytes.Path.{slash, clean_step, clean, join_path, assemble, is_rooted}
use botcoin.Base.Bytes.Path.Joined.{EndsWith, join-append, assemble-append}

clean_step-long :
    (rooted : Bool) (stack : List Text) (u : Text)
    → 3 ≤ length u
    → clean_step rooted stack u ≡ u ∷ stack
unfolding clean_step
clean_step-long rooted stack [] h = absurd (omega arith)
clean_step-long rooted stack (c ∷ []) h = absurd (omega arith)
clean_step-long rooted stack (c ∷ d ∷ []) h = absurd (omega arith)
clean_step-long rooted stack (c ∷ d ∷ e ∷ u) h = ground arith

split-suffix :
    (s ext : Text)
    → split b'/' ext ≡ ext ∷ []
    → (ps : List Text) × (p : Text) × (split b'/' (s ++ ext) ≡ ps ++ ((p ++ ext) ∷ []))
unfolding split
split-suffix [] ext h = ([], [], h)
split-suffix (x ∷ s) ext h =
    let (ps, p, e) = split-suffix s ext h in
    elim (Bool-cases (x == b'/')) [ inl k ↦ ([] ∷ ps, p, rw (k, e) refl) | inr k ↦ onto ps p e k ]
  where
    onto :
        (ps : List Text) (p : Text)
        → split b'/' (s ++ ext) ≡ ps ++ ((p ++ ext) ∷ [])
        → (x == b'/') ≡ false
        → (qs : List Text) × (q : Text) × (split b'/' (x ∷ (s ++ ext)) ≡ qs ++ ((q ++ ext) ∷ []))
    onto [] p e k = ([], x ∷ p, rw (k, e) refl)
    onto (y ∷ ps) p e k = ((x ∷ y) ∷ ps, p, rw (k, e) refl)

clean-suffix :
    (s ext : Text) → split b'/' ext ≡ ext ∷ [] → 3 ≤ length ext → EndsWith (clean (s ++ ext)) ext
unfolding clean
clean-suffix s ext one long = ended (split-suffix s ext one)
  where
    ended :
        ((ps : List Text) × (p : Text) × (split b'/' (s ++ ext) ≡ ps ++ ((p ++ ext) ∷ [])))
        → EndsWith (clean (s ++ ext)) ext
    ended (ps, p, e) =
        let rooted = is_rooted (s ++ ext) in
        let before : List Text = foldl (clean_step rooted) [] ps in
        let (t, j) = join-append (reverse before) in
        let (u, a) = assemble-append rooted (t ++ p) in
        let fits : 3 ≤ length (p ++ ext) = omega (arith, length-append {0} p ext) in
        (
          u,
          rw (e, foldl-append, clean_step-long rooted before (p ++ ext) fits)
              (subst (λ (parts : List Text). assemble rooted (join slash parts) ≡ u ++ ext)
                (sym (reverse-append ((p ++ ext) ∷ []) before))
                (ap (assemble rooted) (j (p ++ ext) ∙ sym (append_assoc t p ext))
                  ∙ a ext (λ z. absurd (omega (arith, ap length z))))),
        )

-- A name in a directory, with an ending of three bytes or more.
pub join_path-suffix :
    (dir s ext : Text)
    → split b'/' ext ≡ ext ∷ []
    → 3 ≤ length ext
    → EndsWith (join_path (dir ∷ (s ++ ext) ∷ [])) ext
unfolding join_path join
join_path-suffix (d ∷ dir) s ext one long =
    subst (λ (u : Text). EndsWith (clean (d ∷ u)) ext) (append_assoc dir (b'/' ∷ s) ext)
      (clean-suffix (d ∷ (dir ++ (b'/' ∷ s))) ext one long)
join_path-suffix [] (c ∷ s) ext one long = clean-suffix (c ∷ s) ext one long
join_path-suffix [] [] [] one long = absurd (omega arith)
join_path-suffix [] [] (c ∷ ext) one long = clean-suffix [] (c ∷ ext) one long
