-- ===== src/Agent/Sanitization/Clean.antt =====
-- What `sanitize_value` returns is bounded in every direction and shows nothing under a sensitive
-- key.
use ai_support_engineering_p.Agent.Env.{Env}
use ai_support_engineering_p.Agent.Sanitization.{
  depth_limited, hidden, is_sensitive, redacted, sanitize_fields, sanitize_items, sanitize_text,
  sanitize_value, set_field,
}
use ai_support_engineering_p.Common.{
  Bool-cases, Text, arith, inl, inr, leb, length, length-take-le, refl, suc, take, text_eq,
  text_eq→eq, true, zero, ℕ, ◌+◌, ◌≡◌, ◌≤◌,
}
use ai_support_engineering_p.Db.Json.{
  Fields, Items, Value, array, boolean, cons, end, field, float, integer, nil, null, object, text,
}

abbrev pub items_count : Items → ℕ
items_count nil = 0
items_count (cons v rest) = items_count rest + 1

abbrev pub fields_count : Fields → ℕ
fields_count end = 0
fields_count (field k v rest) = fields_count rest + 1

-- Values nested at most `levels` deep, with texts of at most 2,000 characters, at most 50 items and
-- 50 fields in each container, keys of at most 120 characters, and "[redacted]" under each key
-- that is sensitive.
mutual
  pub Clean : ℕ → Value → Type 0
  Clean levels null = Unit
  Clean levels (boolean b) = Unit
  Clean levels (integer i) = Unit
  Clean levels (float bits) = Unit
  Clean levels (text t) = length t ≤ 2000
  Clean zero (array items) = ⊥
  Clean (suc levels) (array items) = CleanItems levels items × (items_count items ≤ 50)
  Clean zero (object fields) = ⊥
  Clean (suc levels) (object fields) = CleanFields levels fields × (fields_count fields ≤ 50)

  pub CleanItems : ℕ → Items → Type 0
  CleanItems levels nil = Unit
  CleanItems levels (cons v rest) = Clean levels v × CleanItems levels rest

  pub CleanFields : ℕ → Fields → Type 0
  CleanFields levels end = Unit
  CleanFields levels (field k v rest) =
      (length k ≤ 120)
      × (is_sensitive k ≡ true → v ≡ redacted)
      × Clean levels v
      × CleanFields levels rest

redacted-Clean : (levels : ℕ) → Clean levels redacted
unfolding Clean
redacted-Clean zero = omega arith
redacted-Clean (suc levels) = omega arith

hidden-Clean : (levels : ℕ) (key : Text) (v : Value) → Clean levels v → Clean levels (hidden key v)
hidden-Clean levels key v h = elim (Bool-cases (is_sensitive key)) [
  | inl e ↦ rw e (redacted-Clean levels)
  | inr e ↦ rw e h
]

hidden-redacted : (key : Text) (v : Value) → is_sensitive key ≡ true → hidden key v ≡ redacted
hidden-redacted key v e = rw e refl

set_field-Clean :
    (levels : ℕ) (key : Text) (v : Value) (fields : Fields)
    → length key ≤ 120
    → Clean levels (hidden key v)
    → CleanFields levels fields
    → CleanFields levels (set_field key (hidden key v) fields)
unfolding Clean
set_field-Clean levels key v end l h c = (l, hidden-redacted key v, h, tt)
set_field-Clean levels key v (field k u rest) l h c = elim (Bool-cases (text_eq k key)) [
  | inl e ↦ rw e (c.0, (λ s. hidden-redacted key v (rw (text_eq→eq k key e) at s)), h, c.3)
  | inr e ↦ rw e (c.0, c.1, c.2, set_field-Clean levels key v rest l h c.3)
]

set_field-count :
    (key : Text) (v : Value) (fields : Fields)
    → fields_count (set_field key v fields) ≤ fields_count fields + 1
set_field-count key v end = omega arith
set_field-count key v (field k u rest) = ground (arith, set_field-count key v rest)

-- A value at depth 5 or more is cut off; another may still be nested.
limited-Clean :
    (levels depth : ℕ) (v : Value)
    → depth + levels ≡ 5
    → ((l : ℕ) → levels ≡ suc l → Clean (suc l) v)
    → Clean levels (depth_limited depth v)
unfolding Clean
limited-Clean zero depth v e h =
    let deep : leb 5 depth ≡ true = ground arith in rw deep (omega arith)
limited-Clean (suc l) depth v e h = elim (Bool-cases (leb 5 depth)) [
  | inl deep ↦ rw deep (omega arith)
  | inr shallow ↦ rw shallow (h l refl)
]

module _ (env : Env) where
  text-Clean : (levels : ℕ) (t : Text) → Clean levels (text (sanitize_text env t))
  unfolding Clean sanitize_text
  text-Clean zero t = length-take-le 2000 _
  text-Clean (suc levels) t = length-take-le 2000 _

  mutual
    unfolding Clean sanitize_value

    pub value-Clean :
        (levels depth : ℕ)
        → depth + levels ≡ 5
        → (v : Value) → Clean levels (sanitize_value env depth v)
    value-Clean levels depth e null = limited-Clean levels depth null e (λ l q. tt)
    value-Clean levels depth e (boolean b) = limited-Clean levels depth _ e (λ l q. tt)
    value-Clean levels depth e (integer i) = limited-Clean levels depth _ e (λ l q. tt)
    value-Clean levels depth e (float bits) = limited-Clean levels depth _ e (λ l q. tt)
    value-Clean levels depth e (text t) =
        limited-Clean levels depth _ e (λ l q. text-Clean (suc l) t)
    value-Clean levels depth e (array items) =
        limited-Clean levels depth _ e (λ l q. items-Clean l (depth + 1) 50 (omega arith) items)
    value-Clean levels depth e (object fields) =
        limited-Clean levels depth _ e
          (λ l q. fields-Clean l (depth + 1) 50 (omega arith) fields end tt)

    items-Clean :
        (levels depth room : ℕ)
        → depth + levels ≡ 5
        → (items : Items)
        → CleanItems levels (sanitize_items env depth room items)
          × (items_count (sanitize_items env depth room items) ≤ room)
    items-Clean levels depth room e nil = (tt, omega arith)
    items-Clean levels depth zero e (cons v rest) = (tt, omega arith)
    items-Clean levels depth (suc room) e (cons v rest) =
        let later = items-Clean levels depth room e rest in
        ((value-Clean levels depth e v, later.0), omega (arith, later.1))

    fields-Clean :
        (levels depth room : ℕ)
        → depth + levels ≡ 5
        → (fields result : Fields) → CleanFields levels result
        → CleanFields levels (sanitize_fields env depth room fields result)
          × (fields_count (sanitize_fields env depth room fields result)
              ≤ fields_count result + room)
    fields-Clean levels depth room e end result h = (h, omega arith)
    fields-Clean levels depth zero e (field k v rest) result h = (h, omega arith)
    fields-Clean levels depth (suc room) e (field k v rest) result h =
        let key = take 120 k in
        let here =
          hidden-Clean levels key (sanitize_value env depth v) (value-Clean levels depth e v) in
        let later =
          fields-Clean levels depth room e rest
            (set_field key (hidden key (sanitize_value env depth v)) result)
            (set_field-Clean levels key (sanitize_value env depth v) result (length-take-le 120 k)
              here h) in
        (
          later.0,
          omega (
            arith,
            later.1,
            set_field-count key (hidden key (sanitize_value env depth v)) result,
          ),
        )
