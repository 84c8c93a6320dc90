-- ===== src/Services/Incidents/Positions.antt =====
-- Where a row stands in a list of incidents whose identifiers descend.
use mathlib.Core.List.Memᴰ
use ai_support_engineering_p.Common.{
  Bool, Bool-cases, IsSorted, List, [], ap, arith, count, drop, inl, inr, insert_sorted, keep, ltb,
  refl, sorted, suc, sym, take, take-Mem, true, zero, ℕ, ◌&&◌, ◌+◌, ◌<◌, ◌==◌, ◌∙◌, ◌∷◌, ◌≡◌, ◌≤◌,
}
use ai_support_engineering_p.Db.{IncidentRecord}
use ai_support_engineering_p.Services.Incidents.{newer}
use mathlib.Core.List.{Memᴰ}
use mathlib.Core.Logic.{◌↔◌}

module _ {A : Type 0} where
  count-insert_sorted :
      (before : A → A → Bool) (p : A → Bool) (x : A) (ys : List A)
      → count p (insert_sorted before x ys) ≡ count p (x ∷ ys)
  unfolding insert_sorted
  count-insert_sorted before p x [] = refl
  count-insert_sorted before p x (y ∷ ys) = elim (Bool-cases (before x y)) [
    | inl e ↦ rw e refl
    | inr e ↦ let k = count-insert_sorted before p x ys in rw e (ground (arith, k))
  ]

  pub count-sorted :
      (before : A → A → Bool) (p : A → Bool) (xs : List A) → count p (sorted before xs) ≡ count p xs
  unfolding sorted
  count-sorted before p [] = refl
  count-sorted before p (x ∷ xs) =
      let k = count-sorted before p xs in
      let e = count-insert_sorted before p x (sorted before xs) in ground (arith, k, e)

  pub count-keep : (p q : A → Bool) (xs : List A) → count p (keep q xs) ≡ count (λ x. q x && p x) xs
  count-keep p q [] = refl
  count-keep p q (x ∷ xs) = ground (arith, count-keep p q xs)

  pub count_and_le : (p q : A → Bool) (xs : List A) → count (λ x. q x && p x) xs ≤ count p xs
  count_and_le p q [] = omega arith
  count_and_le p q (x ∷ xs) = ground (arith, count_and_le p q xs)

  pub drop-Mem : (n : ℕ) (y : A) (xs : List A) → Memᴰ y (drop n xs) → Memᴰ y xs
  drop-Mem zero y xs m = m
  drop-Mem (suc n) y [] m = m
  drop-Mem (suc n) y (x ∷ xs) m = Memᴰ.tail (drop-Mem n y xs m)

  pub count_Mem : (p : A → Bool) (y : A) (xs : List A) → Memᴰ y xs → p y ≡ true → 1 ≤ count p xs
  count_Mem p y [] m h = absurd (Memᴰ.not-nil m)
  count_Mem p y (x ∷ xs) m h = elim (Memᴰ.cases_cons m) [
    | inl q ↦ rw (sym q, h) (omega arith)
    | inr k ↦ let i = count_Mem p y xs k h in ground arith
  ]

-- The identifiers descend.
abbrev pub Descending : List IncidentRecord → Type 0
Descending [] = Unit
Descending (x ∷ xs) = ((y : IncidentRecord) → Memᴰ y xs → y.id < x.id) × Descending xs

-- No identifier is used twice.
abbrev pub HasKeys : List IncidentRecord → Type 0
HasKeys xs = (i : ℕ) → count (λ r. r.id == i) xs ≤ 1

-- How many rows of a list have a greater identifier.
abbrev pub rank : IncidentRecord → List IncidentRecord → ℕ
rank r xs = count (λ s. ltb r.id s.id) xs

HasKeys-tail : (x : IncidentRecord) (xs : List IncidentRecord) → HasKeys (x ∷ xs) → HasKeys xs
HasKeys-tail x xs h i = let k = h i in ground arith

pub sorted-Descending : (xs : List IncidentRecord) → IsSorted newer xs → HasKeys xs → Descending xs
sorted-Descending [] s h = tt
sorted-Descending (x ∷ xs) s h =
    (λ y m. below y (s.0 y m) m, sorted-Descending xs s.1 (HasKeys-tail x xs h))
  where
    below : (y : IncidentRecord) → newer x y ≡ true → Memᴰ y xs → y.id < x.id
    below y b m = elim (Bool-cases (y.id == x.id)) [
      | inl e ↦
          let k = h x.id in
          let one : 1 ≤ count (λ r. r.id == x.id) xs = count_Mem (λ r. r.id == x.id) y xs m e in
          ground arith
      | inr e ↦ ground arith
    ]

pub drop-Descending : (n : ℕ) (xs : List IncidentRecord) → Descending xs → Descending (drop n xs)
drop-Descending zero xs h = h
drop-Descending (suc n) [] h = tt
drop-Descending (suc n) (x ∷ xs) h = drop-Descending n xs h.1

pub take-Descending : (n : ℕ) (xs : List IncidentRecord) → Descending xs → Descending (take n xs)
take-Descending zero xs h = tt
take-Descending (suc n) [] h = tt
take-Descending (suc n) (x ∷ xs) h =
    (λ y m. h.0 y (take-Mem newer n y xs m), take-Descending n xs h.1)

rank-head :
    (x : IncidentRecord) (xs : List IncidentRecord)
    → ((y : IncidentRecord) → Memᴰ y xs → y.id < x.id)
    → rank x (x ∷ xs) ≡ 0
rank-head x xs h = let e = rank_zero xs h in ground arith
  where
    rank_zero :
        (ys : List IncidentRecord)
        → ((y : IncidentRecord) → Memᴰ y ys → y.id < x.id)
        → rank x ys ≡ 0
    rank_zero [] k = refl
    rank_zero (y ∷ ys) k =
        let e = rank_zero ys (λ z m. k z (Memᴰ.tail m)) in
        let l = k y (Memᴰ.head refl) in ground arith

rank-tail :
    (x r : IncidentRecord) (xs : List IncidentRecord)
    → r.id < x.id
    → rank r (x ∷ xs) ≡ suc (rank r xs)
rank-tail x r xs h = ground arith

-- The first `n` rows are those with fewer than `n` greater ones.
pub take_iff :
    (n : ℕ) (r : IncidentRecord) (xs : List IncidentRecord)
    → Descending xs
    → Memᴰ r xs
    → Memᴰ r (take n xs) ↔ (rank r xs < n)
take_iff n r [] h m = absurd (Memᴰ.not-nil m)
take_iff zero r (x ∷ xs) h m = (λ k. absurd (Memᴰ.not-nil k), λ k. absurd (omega arith))
take_iff (suc n) r (x ∷ xs) h m = elim (Memᴰ.cases_cons m) [
  | inl q ↦
      let e : rank r (x ∷ xs) ≡ 0 = ap (λ z. rank z (x ∷ xs)) q ∙ rank-head x xs h.0 in
      (λ k. rw e (omega arith), λ k. Memᴰ.head q)
  | inr k ↦
      let below = h.0 r k in
      let e = rank-tail x r xs below in
      let (there, back) = take_iff n r xs h.1 k in
      (
        λ t. elim (Memᴰ.cases_cons t) [
          | inl q ↦ let same = ap (λ z. z.id) q in absurd (omega arith)
          | inr t' ↦ let l = there t' in rw e (omega arith)
        ],
        λ l. Memᴰ.tail (back (let l' = rw e at l in omega arith)),
      )
]

-- The rows after the first `n` are those with at least `n` greater ones.
pub drop_iff :
    (n : ℕ) (r : IncidentRecord) (xs : List IncidentRecord)
    → Descending xs
    → Memᴰ r xs
    → Memᴰ r (drop n xs) ↔ (n ≤ rank r xs)
drop_iff n r [] h m = absurd (Memᴰ.not-nil m)
drop_iff zero r (x ∷ xs) h m = (λ k. omega arith, λ k. m)
drop_iff (suc n) r (x ∷ xs) h m = elim (Memᴰ.cases_cons m) [
  | inl q ↦
      let e : rank r (x ∷ xs) ≡ 0 = ap (λ z. rank z (x ∷ xs)) q ∙ rank-head x xs h.0 in
      (
        λ k.
            let below = h.0 r (drop-Mem n r xs k) in
            let same = ap (λ z. z.id) q in absurd (omega arith),
        λ k. let k' = rw e at k in absurd (omega arith),
      )
  | inr k ↦
      let below = h.0 r k in
      let e = rank-tail x r xs below in
      let (there, back) = drop_iff n r xs h.1 k in
      (λ t. let l = there t in rw e (omega arith), λ l. back (let l' = rw e at l in omega arith))
]

pub rank-drop :
    (n : ℕ) (r : IncidentRecord) (xs : List IncidentRecord)
    → Descending xs
    → Memᴰ r (drop n xs)
    → rank r xs ≡ n + rank r (drop n xs)
rank-drop zero r xs h m = omega arith
rank-drop (suc n) r [] h m = absurd (Memᴰ.not-nil m)
rank-drop (suc n) r (x ∷ xs) h m =
    let below = h.0 r (drop-Mem n r xs m) in
    let e = rank-tail x r xs below in let k = rank-drop n r xs h.1 m in rw e (omega arith)
