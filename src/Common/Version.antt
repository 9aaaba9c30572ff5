-- ===== src/Common/Version.antt =====
-- src/version/version.go: the version, with the branch and the commit that were linked in, and what
-- the version commands print. The versions of the libraries are parameters.
use botcoin.Base.{
  Text, not, ◌&&◌, [], ◌++◌, ◌==◌, text_eq, nat_eq, leb, length, take, if◌then◌else◌, ◌≡◌, refl,
  text_discrete,
}
use botcoin.Base.Bytes.{text}
use botcoin.Base.Result.{Result, ok, panic}

abbrev with_branch : Text → Text
with_branch branch =
    if not (branch == []) && not (branch == text "master")
    then text "0.3.6-" ++ branch
    else text "0.3.6"

-- A commit of fewer than eight digits is a slice out of range.
unfoldable pub version : Text → Text → Result Text
version branch commit =
    if commit == []
    then ok (with_branch branch)
    else if leb 8 (length commit)
    then ok (with_branch branch ++ (text "-" ++ take 8 commit))
    else panic

pub record Versions : Type 0 where
  pub evm : Text
  pub babble : Text
  pub geth : Text

abbrev version_line : Text → Text → Text
version_line label v = label ++ (v ++ text "\n")

unfoldable pub full_version : Text → Versions → Text
full_version v libraries =
    version_line (text "Monetd Version: ") v
    ++ (version_line (text "     EVM-Lite Version: ") libraries.evm
        ++ (version_line (text "     Babble Version: ") libraries.babble
            ++ version_line (text "     Geth Version: ") libraries.geth))

released : version (text "master") (text "0123456789") ≡ ok (text "0.3.6-01234567")
unfolding version text_discrete
released = refl
