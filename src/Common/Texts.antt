-- ===== src/Common/Texts.antt =====
-- `fragment in text` on lists of code points.
use Prim.Native.Nat.{ℕ}
use mathlib.Core.Path.{◌≡◌, refl, ap, ◌∙◌}
use mathlib.Core.Logic.{inl, inr, ◌↔◌}
use mathlib.Core.Bool.{Bool, true, false, false≢true, ◌&&◌, ◌||◌}
use mathlib.Core.List.{[], ◌∷◌, ◌++◌}
use native.Mathlib.Omega.{arith}
use ai_support_engineering_p.Common.Tests.{Bool-cases, Text, ==-refl, ◌==◌}

abbrev pub starts_with : Text → Text → Bool
starts_with [] t = true
starts_with (c ∷ s) [] = false
starts_with (c ∷ s) (d ∷ t) = (c == d) && starts_with s t

abbrev pub contains : Text → Text → Bool
contains s [] = starts_with s []
contains s (d ∷ t) = starts_with s (d ∷ t) || contains s t

starts_with_iff : (s t : Text) → (starts_with s t ≡ true) ↔ ((v : Text) × (t ≡ s ++ v))
starts_with_iff s t = (found s t, matched s t)
  where
    found : (s t : Text) → starts_with s t ≡ true → (v : Text) × (t ≡ s ++ v)
    found [] t h = (t, refl)
    found (c ∷ s) [] h = absurd (false≢true h)
    found (c ∷ s) (d ∷ t) h =
        let (v, e) = found s t (ground arith) in
        let same : d ≡ c = ground arith in (v, ap (λ z. z ∷ t) same ∙ ap (λ u. c ∷ u) e)

    matched : (s t : Text) → (v : Text) × (t ≡ s ++ v) → starts_with s t ≡ true
    matched s t (v, e) = rw e (prefix s v)
      where
        prefix : (s v : Text) → starts_with s (s ++ v) ≡ true
        prefix [] v = refl
        prefix (c ∷ s) v = rw (==-refl c, prefix s v) refl

-- A fragment stands somewhere in the text.
abbrev pub Within : Text → Text → Type 0
Within s t = (u : Text) × (v : Text) × (t ≡ u ++ (s ++ v))

-- The search finds a fragment exactly where it stands in the text.
pub contains_iff : (s t : Text) → (contains s t ≡ true) ↔ Within s t
contains_iff s t = (found t, there)
  where
    found : (t : Text) → contains s t ≡ true → Within s t
    found [] h = let (v, e) = (starts_with_iff s []).0 h in ([], v, e)
    found (d ∷ t) h = elim (Bool-cases (starts_with s (d ∷ t))) [
      | inl e ↦ let (v, e') = (starts_with_iff s (d ∷ t)).0 e in ([], v, e')
      | inr e ↦ let (u, v, e') = found t (rw e at h) in (d ∷ u, v, ap (λ z. d ∷ z) e')
    ]

    later : (d : ℕ) (t : Text) → contains s t ≡ true → contains s (d ∷ t) ≡ true
    later d t h = ground arith

    at_start : (t : Text) → starts_with s t ≡ true → contains s t ≡ true
    at_start [] h = h
    at_start (d ∷ t) h = rw h refl

    there : Within s t → contains s t ≡ true
    there (u, v, e) = rw e (along u)
      where
        along : (u : Text) → contains s (u ++ (s ++ v)) ≡ true
        along [] = at_start (s ++ v) ((starts_with_iff s (s ++ v)).1 (v, refl))
        along (d ∷ u) = later d (u ++ (s ++ v)) (along u)
