-- ===== src/Common/Exec.antt =====
-- Python methods that read and write a state and may raise. What was written before a raise stays
-- written, so the state comes back beside the exception too.
pub mod Triple
use mathlib.Core.Path.{◌≡◌, refl, ap}
use mathlib.Core.Bool.{Bool, true, false}

pub data Result {ℓ} (E A : Type ℓ) : Type ℓ where
  ok : A → Result E A
  err : E → Result E A

abbrev pub Exec {ℓ} : Type ℓ → Type ℓ → Type ℓ → Type ℓ
Exec S E A = S → Result E A × S

module _ {ℓ} {S E A : Type ℓ} where
  unfoldable pub pure : A → Exec S E A
  pure a s = (ok a, s)

  unfoldable pub raise : E → Exec S E A
  raise e s = (err e, s)

  unfoldable pub lift : Result E A → Exec S E A
  lift r s = (r, s)

  -- `try: m / except E as exc: h(exc)`, for a handler of every exception.
  abbrev pub handle : (E → Exec S E A) → Result E A → Exec S E A
  handle h (ok a) s = (ok a, s)
  handle h (err e) s = h e s

  unfoldable pub catch : Exec S E A → (E → Exec S E A) → Exec S E A
  catch m h s = let (r, s') = m s in handle h r s'

  -- The result of `m`, with an exception as a value.
  unfoldable pub attempt : Exec S E A → Exec S E (Result E A)
  attempt m s = let (r, s') = m s in (ok r, s')

module _ {ℓ} {S E A B : Type ℓ} where
  abbrev pub continue : Result E A → (A → Exec S E B) → Exec S E B
  continue (ok a) f s = f a s
  continue (err e) f s = (err e, s)

  infixl 10 ◌>>=◌ ◌>>◌
  -- Opening this opens the methods above too.
  unfoldable pub ◌>>=◌ : Exec S E A → (A → Exec S E B) → Exec S E B
  unfolding pure raise lift catch attempt
  ◌>>=◌ m f s = let (r, s') = m s in continue r f s'

  abbrev pub ◌>>◌ : Exec S E A → Exec S E B → Exec S E B
  m >> n = m >>= λ _. n

pub ok_same : {E A : Type 0} {r : Result E A} {a b : A} → r ≡ ok a → r ≡ ok b → a ≡ b
ok_same h k = cc

-- What a block does once its first method has ended.
pub bind_lem :
    {S E A B : Type 0} (m : Exec S E A) (f : A → Exec S E B) (s : S) (o : Result E A × S)
    → m s ≡ o
    → (m >>= f) s ≡ continue o.0 f o.1
unfolding ◌>>=◌
bind_lem m f s o h = ap (λ p. continue p.0 f p.1) h
