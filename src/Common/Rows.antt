-- ===== src/Common/Rows.antt =====
-- A table of the database as the list of its rows, in insertion order. A row is found by a test
-- on its key columns, as `session.scalar(select(...).where(...))` finds the first match.
use mathlib.Core.Path.{◌≡◌, refl, sym, ap, ◌∙◌}
use mathlib.Core.Bool.{Bool, true, false}
use mathlib.Core.Option
use mathlib.Core.Option.{Option, none, some}
use mathlib.Core.List.{List, [], ◌∷◌, ◌++◌, Memᴰ}
use mathlib.Core.List.Memᴰ
use mathlib.Core.Logic.{◌⊎◌, inl, inr}
use Prim.Native.Nat.{◌+◌}
use native.Mathlib.Omega.{arith}
use ai_support_engineering_p.Common.Lists.{any, count}
use ai_support_engineering_p.Common.Tests.{if◌then◌else◌, Bool-cases}

module _ {A : Type 0} where
  abbrev pub find : (A → Bool) → List A → Option A
  find p [] = none
  find p (x ∷ xs) = if p x then some x else find p xs

  -- Writes `f` of the first row that matches.
  abbrev pub modify : (A → Bool) → (A → A) → List A → List A
  modify p f [] = []
  modify p f (x ∷ xs) = if p x then f x ∷ xs else x ∷ modify p f xs

  pub find-modify :
      (p : A → Bool) (f : A → A) (xs : List A)
      → ((x : A) → p (f x) ≡ p x)
      → find p (modify p f xs) ≡ Option.map f (find p xs)
  find-modify p f [] h = refl
  find-modify p f (x ∷ xs) h = ground (arith, h x, find-modify p f xs h)

  -- A write that keeps what `g` shows of a row, and its key, keeps what `g` shows of any row.
  pub find-modify_view :
      {B : Type 0} (p q : A → Bool) (f : A → A) (g : A → B) (xs : List A)
      → ((x : A) → q (f x) ≡ q x)
      → ((x : A) → g (f x) ≡ g x)
      → Option.map g (find q (modify p f xs)) ≡ Option.map g (find q xs)
  find-modify_view p q f g [] h k = refl
  find-modify_view p q f g (x ∷ xs) h k = ground (arith, h x, k x, find-modify_view p q f g xs h k)

  -- A write of one key leaves the row of another as it was.
  pub find-modify_other :
      (p q : A → Bool) (f : A → A) (xs : List A)
      → ((x : A) → q (f x) ≡ q x)
      → ((x : A) → p x ≡ true → q x ≡ false)
      → find q (modify p f xs) ≡ find q xs
  find-modify_other p q f [] h k = refl
  find-modify_other p q f (x ∷ xs) h k = ground (arith, h x, k x, find-modify_other p q f xs h k)

  pub find-snoc :
      (p : A → Bool) (xs : List A) (x : A)
      → find p xs ≡ none
      → find p (xs ++ x ∷ []) ≡ (if p x then some x else none)
  find-snoc p [] x h = refl
  find-snoc p (y ∷ xs) x h = ground (arith, find-snoc p xs x)

  pub find-snoc_other :
      (p : A → Bool) (xs : List A) (x : A) → p x ≡ false → find p (xs ++ x ∷ []) ≡ find p xs
  find-snoc_other p [] x h = ground arith
  find-snoc_other p (y ∷ xs) x h = ground (arith, find-snoc_other p xs x h)

  pub find-none : (p : A → Bool) (xs : List A) → any p xs ≡ false → find p xs ≡ none
  find-none p [] h = refl
  find-none p (x ∷ xs) h = ground (arith, find-none p xs)

  pub find_holds : (p : A → Bool) (xs : List A) {a : A} → find p xs ≡ some a → p a ≡ true
  find_holds p [] h = cc
  find_holds p (x ∷ xs) {a} h = ground (arith, find_holds p xs {a = a})

  pub count-modify :
      (p q : A → Bool) (f : A → A) (xs : List A)
      → ((x : A) → p x ≡ true → q (f x) ≡ q x)
      → count q (modify p f xs) ≡ count q xs
  count-modify p q f [] h = refl
  count-modify p q f (x ∷ xs) h = ground (arith, h x, count-modify p q f xs h)

  -- A write that makes the row it finds count adds one.
  pub count-modify_new :
      (p q : A → Bool) (f : A → A) (xs : List A) {a : A}
      → ((x : A) → p x ≡ true → q x ≡ false)
      → ((x : A) → p x ≡ true → q (f x) ≡ true)
      → find p xs ≡ some a
      → count q (modify p f xs) ≡ count q xs + 1
  count-modify_new p q f [] h k e = cc
  count-modify_new p q f (x ∷ xs) {a} h k e =
      ground (arith, h x, k x, count-modify_new p q f xs {a = a} h k)

  -- A row of the written table was there, or is what was written.
  pub modify-Mem :
      (p : A → Bool) (f : A → A) (xs : List A) {y : A}
      → Memᴰ y (modify p f xs)
      → Memᴰ y xs ⊎ ((x : A) × (p x ≡ true) × (y ≡ f x))
  modify-Mem p f [] m = inl m
  modify-Mem p f (x ∷ xs) {y} m = elim (Bool-cases (p x)) [
    | inl e ↦ elim (Memᴰ.cases_cons (rw e at m)) [
      | inl h ↦ inr (x, e, h)
      | inr k ↦ inl (Memᴰ.tail k)
    ]
    | inr e ↦ elim (Memᴰ.cases_cons {a = y} (rw e at m)) [
      | inl h ↦ inl (Memᴰ.head h)
      | inr k ↦ elim (modify-Mem p f xs k) [ inl old ↦ inl (Memᴰ.tail old) | inr new ↦ inr new ]
    ]
  ]

  -- A row that is not written stays.
  pub Mem-modify :
      (p : A → Bool) (f : A → A) (xs : List A) {y : A}
      → p y ≡ false
      → Memᴰ y xs
      → Memᴰ y (modify p f xs)
  Mem-modify p f [] e m = m
  Mem-modify p f (x ∷ xs) {y} e (Memᴰ.head h) = rw (ap p (sym h) ∙ e) (Memᴰ.head h)
  Mem-modify p f (x ∷ xs) {y} e (Memᴰ.tail m) = elim (Bool-cases (p x)) [
    | inl q ↦ rw q (Memᴰ.tail m)
    | inr q ↦ rw q (Memᴰ.tail (Mem-modify p f xs e m))
  ]
