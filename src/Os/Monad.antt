-- ===== src/Os/Monad.antt =====
-- The world, and the actions on it. What an action has done stays done when it fails.
use botcoin.Base.{ℕ, Text, Bool, Option, List, if◌then◌else◌}
use botcoin.Base.Dict.{Dict}
use botcoin.Os.Daemon.{Daemon, DockerCall}
use botcoin.Base.Result.{Error, Result, ok, err, panic, hang}

pub data Entry : Type 0 where
  directory : Entry
  file : ℕ → Text → Entry

pub data Call : Type 0 where
  stat read write fill mkdir rename open_file create copy sync : Call

pub record World : Type 0 where
  -- What stands at each path.
  pub disk : Dict Entry
  -- The lines that the user types, one for each prompt.
  pub stdin : List Text
  -- The calls that the system refuses, with another error than a missing file.
  pub fault : Call → Text → Bool
  -- What a server answers to a request for a URL.
  pub net : Text → Option Text
  -- The Docker daemon, and the calls that it has been made, the latest first.
  pub daemon : Daemon
  pub calls : List DockerCall

abbrev pub M : Type 0 → Type 0
M A = World → Result A × World

abbrev pub pure : {A : Type 0} → A → M A
pure a w = (ok a, w)

abbrev pub throw : {A : Type 0} → Error → M A
throw e w = (err e, w)

abbrev pub bind_result : {A B : Type 0} → Result A → (A → M B) → M B
bind_result (ok a) f w = f a w
bind_result (err e) f w = (err e, w)
bind_result panic f w = (panic, w)
bind_result hang f w = (hang, w)

infixl 5 ◌>>=◌ ◌>>◌
abbrev pub ◌>>=◌ : {A B : Type 0} → M A → (A → M B) → M B
◌>>=◌ m f w = let (r, w') = m w in bind_result r f w'

abbrev pub ◌>>◌ : {A B : Type 0} → M A → M B → M B
m >> k = m >>= λ _. k

abbrev pub gets : {A : Type 0} → (World → A) → M A
gets f w = (ok (f w), w)

abbrev pub fail_if : Bool → Error → M (Unit {0})
fail_if c e w = (if c then err e else ok tt, w)

-- A call whose error the program does not look at; a panic still ends it.
abbrev pub ignore_result : {A : Type 0} → Result A → M (Unit {0})
ignore_result (ok a) w = (ok tt, w)
ignore_result (err e) w = (ok tt, w)
ignore_result panic w = (panic, w)
ignore_result hang w = (hang, w)

abbrev pub ignore : {A : Type 0} → M A → M (Unit {0})
ignore m w = let (r, w') = m w in ignore_result r w'

-- A result that does not read the world.
abbrev pub lift : {A : Type 0} → Result A → M A
lift r w = (r, w)

abbrev pub rename_result : {A : Type 0} → Error → Result A → Result A
rename_result e (ok a) = ok a
rename_result e (err _) = err e
rename_result e panic = panic
rename_result e hang = hang

-- A call whose error is wrapped in the caller's message.
abbrev pub or_error : {A : Type 0} → M A → Error → M A
or_error m e w = let (r, w') = m w in (rename_result e r, w')
