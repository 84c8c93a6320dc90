-- ===== src/Knowledge/Retrieval/Ranked.antt =====
-- The order of the candidates in the two ways to search.
use ai_support_engineering_p.Common.{arith, false, refl, true, ℕ, ◌≡◌, ◌≤◌}
use ai_support_engineering_p.Db.Json.{ℤ}
use ai_support_engineering_p.Knowledge.Retrieval.{Candidate, closer, leb_int, ranks_before}

leb_int_total : (a b : ℤ) → leb_int a b ≡ false → leb_int b a ≡ true
leb_int_total (ℤ.pos a) (ℤ.pos b) h = ground arith
leb_int_total (ℤ.pos a) (ℤ.negsuc b) h = refl
leb_int_total (ℤ.negsuc a) (ℤ.pos b) h = cc
leb_int_total (ℤ.negsuc a) (ℤ.negsuc b) h = ground arith

leb_int_trans : (a b c : ℤ) → leb_int a b ≡ true → leb_int b c ≡ true → leb_int a c ≡ true
leb_int_trans (ℤ.pos a) (ℤ.pos b) (ℤ.pos c) h k = ground arith
leb_int_trans (ℤ.pos a) (ℤ.pos b) (ℤ.negsuc c) h k = cc
leb_int_trans (ℤ.pos a) (ℤ.negsuc b) c h k = cc
leb_int_trans (ℤ.negsuc a) b (ℤ.pos c) h k = refl
leb_int_trans (ℤ.negsuc a) (ℤ.pos b) (ℤ.negsuc c) h k = cc
leb_int_trans (ℤ.negsuc a) (ℤ.negsuc b) (ℤ.negsuc c) h k = ground arith

-- The first number is at most the second.
pub data AtMost : ℤ → ℤ → Type 0 where
  both_pos : {a b : ℕ} → a ≤ b → AtMost (ℤ.pos a) (ℤ.pos b)
  mixed : {a b : ℕ} → AtMost (ℤ.negsuc a) (ℤ.pos b)
  both_neg : {a b : ℕ} → b ≤ a → AtMost (ℤ.negsuc a) (ℤ.negsuc b)

-- The first candidate has the greater score, or the same score and the smaller chunk.
abbrev pub Similar : (Candidate → ℤ) → Candidate → Candidate → Type 0
Similar score r s =
    AtMost (score s) (score r) × (AtMost (score r) (score s) → r.chunk.id ≤ s.chunk.id)

-- The first candidate has the smaller distance, or the same distance and the smaller chunk.
abbrev pub Nearer : (Candidate → ℕ) → Candidate → Candidate → Type 0
Nearer distance r s =
    (distance r ≤ distance s) × (distance s ≤ distance r → r.chunk.id ≤ s.chunk.id)

leb_int-AtMost : (a b : ℤ) → leb_int a b ≡ true → AtMost a b
leb_int-AtMost (ℤ.pos a) (ℤ.pos b) h = AtMost.both_pos (ground arith)
leb_int-AtMost (ℤ.pos a) (ℤ.negsuc b) h = cc
leb_int-AtMost (ℤ.negsuc a) (ℤ.pos b) h = AtMost.mixed
leb_int-AtMost (ℤ.negsuc a) (ℤ.negsuc b) h = AtMost.both_neg (ground arith)

AtMost-leb_int : (a b : ℤ) → AtMost a b → leb_int a b ≡ true
AtMost-leb_int a b (AtMost.both_pos h) = ground arith
AtMost-leb_int a b AtMost.mixed = refl
AtMost-leb_int a b (AtMost.both_neg h) = ground arith

module _ (score : Candidate → ℤ) where
  pub ranks_before-Similar : (r s : Candidate) → ranks_before score r s ≡ true → Similar score r s
  ranks_before-Similar r s h = (
    leb_int-AtMost (score s) (score r) (ground arith),
    λ k. let e = AtMost-leb_int (score r) (score s) k in ground arith,
  )

  pub ranks_total :
      (r s : Candidate) → ranks_before score r s ≡ false → ranks_before score s r ≡ true
  ranks_total r s h =
      ground (arith, leb_int_total (score s) (score r), leb_int_total (score r) (score s))

  pub ranks_trans :
      (r s t : Candidate)
      → ranks_before score r s ≡ true
      → ranks_before score s t ≡ true
      → ranks_before score r t ≡ true
  ranks_trans r s t h k = ground (
    arith,
    leb_int_trans (score t) (score s) (score r),
    leb_int_trans (score r) (score t) (score s),
    leb_int_trans (score s) (score r) (score t),
    leb_int_trans (score r) (score s) (score t),
  )

module _ (distance : Candidate → ℕ) where
  pub closer-Nearer : (r s : Candidate) → closer distance r s ≡ true → Nearer distance r s
  closer-Nearer r s h = (ground arith, λ k. ground arith)

  pub closer_total : (r s : Candidate) → closer distance r s ≡ false → closer distance s r ≡ true
  closer_total r s h = ground arith

  pub closer_trans :
      (r s t : Candidate)
      → closer distance r s ≡ true
      → closer distance s t ≡ true
      → closer distance r t ≡ true
  closer_trans r s t h k = ground arith
