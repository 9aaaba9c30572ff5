-- ===== src/Os/Rules.antt =====
-- Rules for chains of actions: inversion of a chain that ends with a value, and what a chain leaves
-- alone.
use botcoin.Base.{Text, ◌≡◌, refl, ap, subst, ◌∙◌, Bool, true, false, some}
use botcoin.Base.Dict.{lookup}
use botcoin.Base.Result.{Error, Result, ok, err, panic, hang}
use botcoin.Os.Monad.{World, Entry, M, ◌>>=◌, bind_result, or_error, fail_if, rename_result}

bind_result-eq-ok :
    {A B : Type 0} (r : Result A) (f : A → M B) (w : World) {b : B} {w' : World}
    → bind_result r f w ≡ (ok b, w')
    → (a : A) × (r ≡ ok a) × (f a w ≡ (ok b, w'))
bind_result-eq-ok (ok a) f w h = (a, refl, h)
bind_result-eq-ok (err e) f w h = absurd (cc)
bind_result-eq-ok panic f w h = absurd (cc)
bind_result-eq-ok hang f w h = absurd (cc)

pub M-eq-ok :
    {A B : Type 0} (m : M A) (f : A → M B) (w : World) {b : B} {w' : World}
    → (m >>= f) w ≡ (ok b, w')
    → (a : A) × (w1 : World) × (m w ≡ (ok a, w1)) × (f a w1 ≡ (ok b, w'))
M-eq-ok m f w h =
    let (a, e, k) = bind_result-eq-ok (m w).0 f (m w).1 h in (a, (m w).1, (λ i. (e i, (m w).1)), k)

-- A chain that starts with a test that has passed.
pub fail_if-eq-ok :
    {B : Type 0} (c : Bool) (e : Error) (f : Unit {0} → M B) (w : World) {b : B} {w' : World}
    → (fail_if c e >>= f) w ≡ (ok b, w')
    → (c ≡ false) × (f tt w ≡ (ok b, w'))
fail_if-eq-ok true e f w h = absurd (cc)
fail_if-eq-ok false e f w h = (refl, h)

-- A chain whose first action, when it ends with a value, leaves the world as it was.
pub reading-eq-ok :
    {A B : Type 0} (m : M A) (f : A → M B) (w : World) {b : B} {w' : World}
    → ((a : A) (w1 : World) → m w ≡ (ok a, w1) → w1 ≡ w)
    → (m >>= f) w ≡ (ok b, w')
    → (a : A) × (m w ≡ (ok a, w)) × (f a w ≡ (ok b, w'))
reading-eq-ok m f w {b} {w'} reads h =
    let (a, w1, e, k) = M-eq-ok m f w h in
    let same = reads a w1 e in
    (a, subst (λ v. m w ≡ (ok a, v)) same e, subst (λ v. f a v ≡ (ok b, w')) same k)

rename_result-eq-ok :
    {A : Type 0} (e : Error) (r : Result A) {a : A} → rename_result e r ≡ ok a → r ≡ ok a
rename_result-eq-ok e (ok a) h = h
rename_result-eq-ok e (err e') h = absurd (cc)
rename_result-eq-ok e panic h = absurd (cc)
rename_result-eq-ok e hang h = absurd (cc)

pub or_error-eq-ok :
    {A : Type 0} (m : M A) (e : Error) (w : World) {a : A} {w' : World}
    → or_error m e w ≡ (ok a, w')
    → m w ≡ (ok a, w')
or_error-eq-ok {A} m e w h = λ i. (
  rename_result-eq-ok e (m w).0 (ap (λ (p : Result A × World). p.0) h) i,
  ap (λ (p : Result A × World). p.1) h i,
)

-- The disk and what the system refuses are the same.
pub record Same (w w' : World) : Type 0 where
  pub disk : w'.disk ≡ w.disk
  pub fault : w'.fault ≡ w.fault

pub Same-refl : (w : World) → Same w w
Same-refl w = record { disk = refl; fault = refl }

pub Same-trans : (u v w : World) → Same u v → Same v w → Same u w
Same-trans u v w s t = record { disk = t.disk ∙ s.disk; fault = t.fault ∙ s.fault }

-- An action that changes neither, whatever its outcome.
abbrev pub Reads : {A : Type 0} → M A → Type 0
Reads m = (w : World) → Same w (m w).1

bind_result-Reads :
    {A B : Type 0} (r : Result A) (f : A → M B) (w : World)
    → ((a : A) → Reads (f a))
    → Same w (bind_result r f w).1
bind_result-Reads (ok a) f w k = k a w
bind_result-Reads (err e) f w k = Same-refl w
bind_result-Reads panic f w k = Same-refl w
bind_result-Reads hang f w k = Same-refl w

pub bind-Reads :
    {A B : Type 0} (m : M A) (f : A → M B) → Reads m → ((a : A) → Reads (f a)) → Reads (m >>= f)
bind-Reads m f h k w =
    Same-trans w (m w).1 (bind_result (m w).0 f (m w).1).1 (h w)
      (bind_result-Reads (m w).0 f (m w).1 k)

-- Nothing that stands on the disk is changed or taken away.
abbrev pub Keeps : World → World → Type 0
Keeps w w' = (q : Text) (e : Entry) → lookup q w.disk ≡ some e → lookup q w'.disk ≡ some e

pub Same-Keeps : (w w' : World) → Same w w' → Keeps w w'
Same-Keeps w w' s q e h = ap (lookup q) s.disk ∙ h

pub Keeps-trans : (u v w : World) → Keeps u v → Keeps v w → Keeps u w
Keeps-trans u v w k l q e h = l q e (k q e h)

bind_result-Keeps :
    {A B : Type 0} (r : Result A) (f : A → M B) (w : World)
    → ((a : A) → r ≡ ok a → Keeps w (f a w).1)
    → Keeps w (bind_result r f w).1
bind_result-Keeps (ok a) f w k = k a refl
bind_result-Keeps (err e) f w k = λ q e' h. h
bind_result-Keeps panic f w k = λ q e' h. h
bind_result-Keeps hang f w k = λ q e' h. h

-- A chain keeps what stands if its first action does, and the rest does where the first has led.
pub bind-Keeps :
    {A B : Type 0} (m : M A) (f : A → M B) (w : World)
    → Keeps w (m w).1
    → ((a : A) → Keeps (m w).1 (f a (m w).1).1)
    → Keeps w ((m >>= f) w).1
bind-Keeps m f w h k =
    Keeps-trans w (m w).1 (bind_result (m w).0 f (m w).1).1 h
      (bind_result-Keeps (m w).0 f (m w).1 (λ a e. k a))

-- An action that leaves the world as it was, whatever its outcome.
abbrev pub Leaves : {A : Type 0} → M A → Type 0
Leaves m = (w : World) → (m w).1 ≡ w

bind_result-Leaves :
    {A B : Type 0} (r : Result A) (f : A → M B) (w : World)
    → ((a : A) → Leaves (f a))
    → (bind_result r f w).1 ≡ w
bind_result-Leaves (ok a) f w k = k a w
bind_result-Leaves (err e) f w k = refl
bind_result-Leaves panic f w k = refl
bind_result-Leaves hang f w k = refl

pub bind-Leaves :
    {A B : Type 0} (m : M A) (f : A → M B) → Leaves m → ((a : A) → Leaves (f a)) → Leaves (m >>= f)
bind-Leaves m f h k w = bind_result-Leaves (m w).0 f (m w).1 k ∙ h w
