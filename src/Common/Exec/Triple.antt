-- ===== src/Common/Exec/Triple.antt =====
-- Statements about methods, with a rule for each way to build one: from a state with `P`, the
-- method returns a value and a state with `Q`, or raises and leaves a state with `R`.
use mathlib.Core.Path.{◌≡◌, refl}
use ai_support_engineering_p.Agent.Env.{M}
use ai_support_engineering_p.Common.{Bool, false, if◌then◌else◌, true}
use ai_support_engineering_p.Common.Exec.{
  Exec, Result, attempt, catch, continue, err, handle, ok, pure, raise, ◌>>=◌,
}

module _ {ℓ} {S E A : Type ℓ} where
  abbrev pub Ends : (A → S → Type ℓ) → (E → S → Type ℓ) → Result E A × S → Type ℓ
  Ends Q R (ok a, s) = Q a s
  Ends Q R (err e, s) = R e s

  pub record Triple (P : S → Type ℓ) (m : Exec S E A) (Q : A → S → Type ℓ) (R : E → S → Type ℓ)
      : Type ℓ where
    pub at : (s : S) → P s → Ends Q R (m s)

  pub Ends-mono :
      {Q Q' : A → S → Type ℓ} {R R' : E → S → Type ℓ}
      → ((a : A) (s : S) → Q' a s → Q a s)
      → ((e : E) (s : S) → R' e s → R e s)
      → (o : Result E A × S) → Ends Q' R' o
      → Ends Q R o
  Ends-mono f g (ok a, s) h = f a s h
  Ends-mono f g (err e, s) h = g e s h

module _ {ℓ} {S E A : Type ℓ} where
  total :
      {Q : A → S → Type ℓ} {R : E → S → Type ℓ}
      → ((a : A) (s : S) → Q a s)
      → ((e : E) (s : S) → R e s)
      → (o : Result E A × S) → Ends Q R o
  total f g (ok a, s) = f a s
  total f g (err e, s) = g e s

  handle-Ends :
      {Q : A → S → Type ℓ} {R F : E → S → Type ℓ} (h : E → Exec S E A) (o : Result E A × S)
      → ((e : E) → Triple (F e) (h e) Q R)
      → Ends Q F o
      → Ends Q R (handle h o.0 o.1)
  handle-Ends h (ok a, s) k q = q
  handle-Ends h (err e, s) k f = (k e).at s f

module _ {ℓ} {S E A B : Type ℓ} where
  continue-Ends :
      {M : A → S → Type ℓ} {Q : B → S → Type ℓ} {R : E → S → Type ℓ} (f : A → Exec S E B)
      (o : Result E A × S)
      → ((a : A) → Triple (M a) (f a) Q R)
      → Ends M R o
      → Ends Q R (continue o.0 f o.1)
  continue-Ends f (ok a, s) k h = (k a).at s h
  continue-Ends f (err e, s) k h = h

module _ {ℓ} {S E A : Type ℓ} {P : S → Type ℓ} {Q : A → S → Type ℓ} {R : E → S → Type ℓ} where
  pub Triple-pure : (a : A) → ((s : S) → P s → Q a s) → Triple P (pure a) Q R
  unfolding pure
  Triple-pure a h = record { at = h }

  pub Triple-raise : (e : E) → ((s : S) → P s → R e s) → Triple P (raise e) Q R
  unfolding raise
  Triple-raise e h = record { at = h }

  pub Triple-given :
      {F : Type ℓ} {m : Exec S E A} → (F → Triple P m Q R) → Triple (λ s. P s × F) m Q R
  Triple-given h = record { at = λ s f. (h f.1).at s f.0 }

  -- Of a method of which nothing needs to be known.
  pub Triple-any :
      {m : Exec S E A} → ((a : A) (s : S) → Q a s) → ((e : E) (s : S) → R e s) → Triple P m Q R
  Triple-any {m} f g = record { at = λ s p. total f g (m s) }

  pub Triple-if :
      (b : Bool) (m n : Exec S E A)
      → (b ≡ true → Triple P m Q R)
      → (b ≡ false → Triple P n Q R)
      → Triple P (if b then m else n) Q R
  Triple-if true m n h k = h refl
  Triple-if false m n h k = k refl

  pub Triple-mono :
      {P' : S → Type ℓ} {Q' : A → S → Type ℓ} {R' : E → S → Type ℓ} {m : Exec S E A}
      → ((s : S) → P s → P' s)
      → ((a : A) (s : S) → Q' a s → Q a s)
      → ((e : E) (s : S) → R' e s → R e s)
      → Triple P' m Q' R'
      → Triple P m Q R
  Triple-mono {m = m} pre post fail t = record {
    at = λ s h. Ends-mono post fail (m s) (t.at s (pre s h));
  }

  pub Triple-catch :
      (F : E → S → Type ℓ) {m : Exec S E A} {h : E → Exec S E A}
      → Triple P m Q F
      → ((e : E) → Triple (F e) (h e) Q R)
      → Triple P (catch m h) Q R
  unfolding catch
  Triple-catch F {m} {h} t k = record { at = λ s p. handle-Ends h (m s) k (t.at s p) }

module _ {ℓ} {S E A B : Type ℓ} {P : S → Type ℓ} {Q : B → S → Type ℓ} {R : E → S → Type ℓ} where
  pub Triple-bind :
      (M : A → S → Type ℓ) {m : Exec S E A} {f : A → Exec S E B}
      → Triple P m M R
      → ((a : A) → Triple (M a) (f a) Q R)
      → Triple P (m >>= f) Q R
  unfolding ◌>>=◌
  Triple-bind M {m} {f} t k = record { at = λ s p. continue-Ends f (m s) k (t.at s p) }

module _ {ℓ} {S E A : Type ℓ} where
  -- A fact that does not depend on the state may be assumed outside.
  pub Triple-assume :
      {Q : A → S → Type ℓ} {R : E → S → Type ℓ} {F : Type ℓ} {m : Exec S E A}
      → (F → Triple (λ s. Unit) m Q R)
      → Triple (λ s. F) m Q R
  Triple-assume h = record { at = λ s f. (h f).at s tt }

  -- The outcome of an attempt, as a value.
  abbrev pub Attempted : (A → S → Type ℓ) → (E → S → Type ℓ) → Result E A → S → Type ℓ
  Attempted Q F (ok a) s = Q a s
  Attempted Q F (err e) s = F e s

  -- What holds on either outcome.
  pub Attempted-same :
      (P : S → Type ℓ) (o : Result E A) (s : S) → Attempted (λ a. P) (λ e. P) o s → P s
  Attempted-same P (ok a) s h = h
  Attempted-same P (err e) s h = h

  attempt-Ends :
      (Q : A → S → Type ℓ) (F : E → S → Type ℓ) (o : Result E A × S)
      → Ends Q F o
      → Attempted Q F o.0 o.1
  attempt-Ends Q F (ok a, s) h = h
  attempt-Ends Q F (err e, s) h = h

module _ {ℓ} {S E A : Type ℓ} where
  pub Triple-attempt :
      {P : S → Type ℓ} {Q : A → S → Type ℓ} {F : E → S → Type ℓ} {R : E → S → Type ℓ}
      {m : Exec S E A}
      → Triple P m Q F
      → Triple P (attempt m) (Attempted Q F) R
  unfolding attempt
  Triple-attempt {Q = Q} {F = F} {m = m} t = record {
    at = λ s p. attempt-Ends Q F (m s) (t.at s p);
  }
