-- ===== src/Base/Bytes/Path.antt =====
-- `path/filepath` on Unix: `Clean`, `Join`, `Dir` and `Ext`.
pub mod Joined
pub mod Suffix
use Prim.Native.Nat.{ℕ}
use mathlib.Core.Bool.{Bool, true, false, not, ◌&&◌}
use mathlib.Core.List.{List, [], ◌∷◌, foldl, reverse}
use botcoin.Base.Test.{Text, ◌==◌, nat_eq, text_eq, if◌then◌else◌}
use botcoin.Base.Bytes.{split, join, contains}

abbrev pub slash : Text
slash = b'/' ∷ []

abbrev dot : Text
dot = b'.' ∷ []

abbrev dot_dot : Text
dot_dot = b'.' ∷ b'.' ∷ []

abbrev pub is_rooted : Text → Bool
is_rooted [] = false
is_rooted (c ∷ s) = c == b'/'

-- `..` takes the element before it away, unless there is none to take.
abbrev climb : Bool → List Text → List Text
climb rooted [] = if rooted then [] else dot_dot ∷ []
climb rooted (p ∷ stack) = if p == dot_dot then dot_dot ∷ p ∷ stack else stack

-- The elements so far stand in reverse.
unfoldable pub clean_step : Bool → List Text → Text → List Text
clean_step rooted stack [] = stack
clean_step rooted stack (c ∷ p) =
    if c ∷ p == dot then stack else if c ∷ p == dot_dot then climb rooted stack else (c ∷ p) ∷ stack

abbrev pub assemble : Bool → Text → Text
assemble true body = b'/' ∷ body
assemble false [] = dot
assemble false (c ∷ body) = c ∷ body

unfoldable pub clean : Text → Text
unfolding split join clean_step
clean s =
    assemble (is_rooted s)
      (join slash (reverse (foldl (clean_step (is_rooted s)) [] (split b'/' s))))

-- `filepath.Join`: empty elements in front are dropped.
unfoldable pub join_path : List Text → Text
unfolding clean
join_path [] = []
join_path ([] ∷ parts) = join_path parts
join_path ((c ∷ s) ∷ parts) = clean (join slash ((c ∷ s) ∷ parts))

-- The text up to its last slash, with it.
up_to_slash : Text → Text
up_to_slash [] = []
up_to_slash (c ∷ s) = if contains b'/' (c ∷ s) then c ∷ up_to_slash s else []

-- `filepath.Dir`
unfoldable pub dir : Text → Text
unfolding clean up_to_slash contains
dir s = clean (up_to_slash s)

abbrev ext_from : ℕ → Text → Text → Text
ext_from c s [] = if (c == b'.') && not (contains b'/' s) then c ∷ s else []
ext_from c s (d ∷ e) = d ∷ e

-- `filepath.Ext`: from the last dot of the last element
unfoldable pub ext : Text → Text
unfolding contains
ext [] = []
ext (c ∷ s) = ext_from c s (ext s)
