-- ===== src/Common/Keys.antt =====
-- `list(dict.fromkeys(xs))` has the elements of `xs`, each once.
use mathlib.Core.Path.{◌≡◌, refl, sym, ◌∙◌}
use mathlib.Core.Logic.{◌≢◌, ◌⊎◌, inl, inr, ◌↔◌}
use mathlib.Core.Bool.{Bool, true, false}
use mathlib.Core.List.{List, [], ◌∷◌, ◌++◌, Memᴰ}
use mathlib.Core.List.Memᴰ
use ai_support_engineering_p.Common.Lists.{any, insert_new, fromkeys, fromkeys_from}
use ai_support_engineering_p.Common.Members.{Unique, any-Mem, none-Mem}
use ai_support_engineering_p.Common.Tests.{Bool-cases}

module _ {A : Type 0} (eq : A → A → Bool) (exact : (a b : A) → (eq a b ≡ true) ↔ (a ≡ b)) where
  Unique-snoc :
      (xs : List A) (x : A) → Unique xs → ((y : A) → Memᴰ y xs → y ≢ x) → Unique (xs ++ x ∷ [])
  Unique-snoc [] x u n = ((λ y m e. Memᴰ.not-nil m), tt)
  Unique-snoc (y ∷ xs) x u n = (apart, Unique-snoc xs x u.1 (λ z m. n z (Memᴰ.tail m)))
    where
      apart : (z : A) → Memᴰ z (xs ++ x ∷ []) → y ≢ z
      apart z m e = elim (Memᴰ.append_cases xs m) [
        | inl k ↦ u.0 z k e
        | inr k ↦ elim (Memᴰ.cases_cons k) [
          | inl h ↦ n y (Memᴰ.head refl) (e ∙ h)
          | inr k' ↦ Memᴰ.not-nil k'
        ]
      ]

  insert_new-Unique : (seen : List A) (x : A) → Unique seen → Unique (insert_new eq seen x)
  insert_new-Unique seen x u = elim (Bool-cases (any (eq x) seen)) [
    | inl e ↦ rw e u
    | inr e ↦
        rw e (Unique-snoc seen x u (λ y m h. absurd (unequal y (sym h) (none-Mem (eq x) seen e m))))
  ]
    where
      unequal : (y : A) → x ≡ y → eq x y ≡ false → ⊥
      unequal y h e = clash ((exact x y).1 h) e
        where
          clash : {b : Bool} → b ≡ true → b ≡ false → ⊥
          clash h e = cc

  fromkeys_from-Unique : (seen xs : List A) → Unique seen → Unique (fromkeys_from eq seen xs)
  fromkeys_from-Unique seen [] u = u
  fromkeys_from-Unique seen (x ∷ xs) u =
      fromkeys_from-Unique (insert_new eq seen x) xs (insert_new-Unique seen x u)

  pub fromkeys-Unique : (xs : List A) → Unique (fromkeys eq xs)
  fromkeys-Unique xs = fromkeys_from-Unique [] xs tt

  insert_new-Mem :
      (seen : List A) (x y : A) → Memᴰ y (insert_new eq seen x) ↔ (Memᴰ y seen ⊎ (y ≡ x))
  insert_new-Mem seen x y = elim (Bool-cases (any (eq x) seen)) [
    | inl e ↦
        let (z, m, h) = any-Mem (eq x) seen e in
        rw e (inl, λ s. elim s [ inl k ↦ k | inr h' ↦ Memᴰ.cast (h' ∙ (exact x z).0 h) m ])
    | inr e ↦ rw e (
      (λ m. elim (Memᴰ.append_cases seen m) [
        | inl k ↦ inl k
        | inr k ↦ elim (Memᴰ.cases_cons k) [ inl h ↦ inr h | inr k' ↦ absurd (Memᴰ.not-nil k') ]
      ]),
      λ s. elim s [
        | inl k ↦ Memᴰ.append_left (x ∷ []) k
        | inr h ↦ Memᴰ.append_right seen (Memᴰ.head h)
      ],
    )
  ]

  one_more_key :
      (seen : List A) (x : A) (xs : List A) (y : A) {P : Type 0}
      → P ↔ (Memᴰ y (insert_new eq seen x) ⊎ Memᴰ y xs)
      → P ↔ (Memᴰ y seen ⊎ Memᴰ y (x ∷ xs))
  one_more_key seen x xs y {P} rest = (there, back)
    where
      there : P → Memᴰ y seen ⊎ Memᴰ y (x ∷ xs)
      there m = elim (rest.0 m) [
        | inl k ↦ elim ((insert_new-Mem seen x y).0 k) [
          | inl k' ↦ inl k'
          | inr h ↦ inr (Memᴰ.head h)
        ]
        | inr k ↦ inr (Memᴰ.tail k)
      ]

      back : Memᴰ y seen ⊎ Memᴰ y (x ∷ xs) → P
      back (inl k) = rest.1 (inl ((insert_new-Mem seen x y).1 (inl k)))
      back (inr (Memᴰ.head h)) = rest.1 (inl ((insert_new-Mem seen x y).1 (inr h)))
      back (inr (Memᴰ.tail k)) = rest.1 (inr k)

  fromkeys_from-Mem :
      (seen xs : List A) (y : A) → Memᴰ y (fromkeys_from eq seen xs) ↔ (Memᴰ y seen ⊎ Memᴰ y xs)
  fromkeys_from-Mem seen [] y = (inl, λ s. elim s [ inl k ↦ k | inr k ↦ absurd (Memᴰ.not-nil k) ])
  fromkeys_from-Mem seen (x ∷ xs) y =
      one_more_key seen x xs y (fromkeys_from-Mem (insert_new eq seen x) xs y)

  pub fromkeys-Mem : (xs : List A) (y : A) → Memᴰ y (fromkeys eq xs) ↔ Memᴰ y xs
  fromkeys-Mem xs y = (
    (λ m. elim ((fromkeys_from-Mem [] xs y).0 m) [ inl k ↦ absurd (Memᴰ.not-nil k) | inr k ↦ k ]),
    λ m. (fromkeys_from-Mem [] xs y).1 (inr m),
  )
