-- ===== src/Common/Members.antt =====
-- What the Boolean tests on lists say of the members of a list.
use mathlib.Core.Path.{◌≡◌, refl, sym, ap, ◌∙◌}
use mathlib.Core.Logic.{◌≢◌, inl, inr, ◌↔◌}
use mathlib.Core.Bool.{Bool, true, false, not}
use mathlib.Core.Option.{some}
use mathlib.Core.List.{List, [], ◌∷◌, Memᴰ}
use mathlib.Core.List.Memᴰ
use native.Mathlib.Omega.{arith}
use ai_support_engineering_p.Common.Lists.{any, keep, is_empty, distinct}
use ai_support_engineering_p.Common.Tests.{Bool-cases}

module _ {A : Type 0} where
  pub any-Mem : (p : A → Bool) (xs : List A) → any p xs ≡ true → (x : A) × Memᴰ x xs × (p x ≡ true)
  any-Mem p [] h = cc
  any-Mem p (x ∷ xs) h = elim (Bool-cases (p x)) [
    | inl e ↦ (x, Memᴰ.head refl, e)
    | inr e ↦ let (y, m, e') = any-Mem p xs (rw e at h) in (y, Memᴰ.tail m, e')
  ]

  pub Mem-any : (p : A → Bool) {x : A} (xs : List A) → Memᴰ x xs → p x ≡ true → any p xs ≡ true
  Mem-any p [] m h = absurd (Memᴰ.not-nil m)
  Mem-any p (y ∷ xs) (Memᴰ.head e) h = rw (ap p (sym e) ∙ h) refl
  Mem-any p (y ∷ xs) (Memᴰ.tail m) h = ground (arith, Mem-any p xs m h)

  pub none-Mem : (p : A → Bool) {x : A} (xs : List A) → any p xs ≡ false → Memᴰ x xs → p x ≡ false
  none-Mem p [] h m = absurd (Memᴰ.not-nil m)
  none-Mem p (y ∷ xs) h (Memᴰ.head e) = ap p e ∙ ground arith
  none-Mem p (y ∷ xs) h (Memᴰ.tail m) = none-Mem p xs (ground arith) m

  pub Mem-none :
      (p : A → Bool) (xs : List A) → ((x : A) → Memᴰ x xs → p x ≡ false) → any p xs ≡ false
  Mem-none p [] h = refl
  Mem-none p (x ∷ xs) h = rw (h x (Memᴰ.head refl)) (Mem-none p xs (λ y m. h y (Memᴰ.tail m)))

  pub keep-Mem :
      (p : A → Bool) {x : A} (xs : List A) → Memᴰ x (keep p xs) → Memᴰ x xs × (p x ≡ true)
  keep-Mem p [] m = absurd (Memᴰ.not-nil m)
  keep-Mem p {x} (y ∷ xs) m = elim (Bool-cases (p y)) [
    | inl e ↦ elim (Memᴰ.cases_cons (rw e at m)) [
      | inl h ↦ (Memᴰ.head h, ap p h ∙ e)
      | inr m' ↦ let (k, h) = keep-Mem p xs m' in (Memᴰ.tail k, h)
    ]
    | inr e ↦ let (k, h) = keep-Mem p {x = x} xs (rw e at m) in (Memᴰ.tail k, h)
  ]

  pub Mem-keep : (p : A → Bool) {x : A} (xs : List A) → Memᴰ x xs → p x ≡ true → Memᴰ x (keep p xs)
  Mem-keep p [] m h = absurd (Memᴰ.not-nil m)
  Mem-keep p (y ∷ xs) (Memᴰ.head e) h = rw (ap p (sym e) ∙ h) (Memᴰ.head e)
  Mem-keep p (y ∷ xs) (Memᴰ.tail m) h = elim (Bool-cases (p y)) [
    | inl e ↦ rw e (Memᴰ.tail (Mem-keep p xs m h))
    | inr e ↦ rw e (Mem-keep p xs m h)
  ]

  -- No element is left out: `all(p(x) for x in xs)`.
  pub all-Mem :
      (p : A → Bool) (xs : List A)
      → (is_empty (keep (λ x. not (p x)) xs) ≡ true) ↔ ((x : A) → Memᴰ x xs → p x ≡ true)
  all-Mem p xs = (all_kept xs, none_left xs)
    where
      all_kept :
          (xs : List A)
          → is_empty (keep (λ x. not (p x)) xs) ≡ true
          → (x : A) → Memᴰ x xs
          → p x ≡ true
      all_kept [] h x m = absurd (Memᴰ.not-nil m)
      all_kept (y ∷ xs) h x (Memᴰ.head e) = ap p e ∙ ground arith
      all_kept (y ∷ xs) h x (Memᴰ.tail m) = all_kept xs (ground arith) x m

      none_left :
          (xs : List A)
          → ((x : A) → Memᴰ x xs → p x ≡ true)
          → is_empty (keep (λ x. not (p x)) xs) ≡ true
      none_left [] h = refl
      none_left (y ∷ xs) h = rw (h y (Memᴰ.head refl)) (none_left xs (λ x m. h x (Memᴰ.tail m)))

  -- No two elements are equal.
  abbrev pub Unique : List A → Type 0
  Unique [] = Unit
  Unique (x ∷ xs) = ((y : A) → Memᴰ y xs → x ≢ y) × Unique xs

  pub distinct-Unique :
      (eq : A → A → Bool) (xs : List A)
      → ((a b : A) → (eq a b ≡ true) ↔ (a ≡ b))
      → (distinct eq xs ≡ true) ↔ Unique xs
  distinct-Unique eq xs h = (apart xs, tested xs)
    where
      unequal : (x y : A) → x ≢ y → eq x y ≡ false
      unequal x y n = elim (Bool-cases (eq x y)) [ inl e ↦ absurd (n ((h x y).0 e)) | inr e ↦ e ]

      apart : (xs : List A) → distinct eq xs ≡ true → Unique xs
      apart [] d = tt
      apart (x ∷ xs) d = (
        λ y m e. no (rw (none-Mem (eq x) xs (ground arith) m) at (h x y).1 e),
        apart xs (ground arith),
      )
        where
          no : false ≡ true → ⊥
          no e = cc

      tested : (xs : List A) → Unique xs → distinct eq xs ≡ true
      tested [] u = refl
      tested (x ∷ xs) u = rw (Mem-none (eq x) xs (λ y m. unequal x y (u.0 y m)), tested xs u.1) refl

pub some_same : {A : Type 0} {a b : A} → some a ≡ some b → a ≡ b
some_same h = cc
