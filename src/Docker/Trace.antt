-- ===== src/Docker/Trace.antt =====
-- Which calls an action makes, whatever its outcome.
use botcoin.Base.{◌≡◌, refl, sym, ◌∙◌, ap, Bool, true, false, List, [], ◌∷◌, ◌++◌, All, All-append}
use mathlib.Core.List.{append_assoc}
use botcoin.Base.Result.{Result, ok, err, panic, hang}
use botcoin.Os.{World, M, ◌>>=◌, bind_result, DockerCall, DockerAnswer}
use botcoin.Docker.{call, when}

-- What is new in the calls satisfies the predicate; the disk and what the system refuses are the same.
pub record Only (P : DockerCall → Type 0) (w w' : World) : Type 0 where
  pub new : List DockerCall
  pub calls : w'.calls ≡ new ++ w.calls
  pub all : All P new
  pub disk : w'.disk ≡ w.disk
  pub fault : w'.fault ≡ w.fault

-- An action that makes only such calls.
abbrev pub Calls : {A : Type 0} → (DockerCall → Type 0) → M A → Type 0
Calls P m = (w : World) → Only P w (m w).1

module _ (P : DockerCall → Type 0) where
  pub Only-refl : (w : World) → Only P w w
  Only-refl w = record { new = []; calls = refl; all = tt; disk = refl; fault = refl }

  pub Only-trans : (u v w : World) → Only P u v → Only P v w → Only P u w
  Only-trans u v w a b = record {
    new = b.new ++ a.new;
    calls = b.calls ∙ ap (λ cs. b.new ++ cs) a.calls ∙ sym (append_assoc b.new a.new u.calls);
    all = All-append P b.new a.new b.all a.all;
    disk = b.disk ∙ a.disk;
    fault = b.fault ∙ a.fault;
  }

  pub call-Calls :
      {A : Type 0} (read : DockerAnswer → Result A) (c : DockerCall) → P c → Calls P (call read c)
  call-Calls read c p w = record {
    new = c ∷ [];
    calls = refl;
    all = (p, tt);
    disk = refl;
    fault = refl;
  }

  bind_result-Calls :
      {A B : Type 0} (r : Result A) (f : A → M B) (w : World)
      → ((a : A) → Calls P (f a))
      → Only P w (bind_result r f w).1
  bind_result-Calls (ok a) f w k = k a w
  bind_result-Calls (err e) f w k = Only-refl w
  bind_result-Calls panic f w k = Only-refl w
  bind_result-Calls hang f w k = Only-refl w

  pub bind-Calls :
      {A B : Type 0} (m : M A) (f : A → M B)
      → Calls P m
      → ((a : A) → Calls P (f a))
      → Calls P (m >>= f)
  bind-Calls m f h k w =
      Only-trans w (m w).1 (bind_result (m w).0 f (m w).1).1 (h w)
        (bind_result-Calls (m w).0 f (m w).1 k)

  pub when-Calls : (c : Bool) (m : M (Unit {0})) → (c ≡ true → Calls P m) → Calls P (when c m)
  when-Calls true m h = h refl
  when-Calls false m h = Only-refl
