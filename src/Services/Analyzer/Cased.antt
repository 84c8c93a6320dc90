-- ===== src/Services/Analyzer/Cased.antt =====
-- Patterns and the case of ASCII letters.
use mathlib.Core.Option
use ai_support_engineering_p.Common.{
  Bool, List, Option, Text, [], any, arith, false, if◌then◌else◌, is_empty, leb, map, none, refl,
  some, sym, true, ℕ, ◌&&◌, ◌++◌, ◌+◌, ◌==◌, ◌∙◌, ◌∷◌, ◌≡◌,
}
use ai_support_engineering_p.Db.{Severity}
use ai_support_engineering_p.Knowledge.Whitespace.{line_feed}
use ai_support_engineering_p.Services.Analyzer.{
  IncidentRequest, analyze_incident, content_of, first_answer, matches,
}
use ai_support_engineering_p.Services.Analyzer.Rules.{AnalysisRule, rules}
use ai_support_engineering_p.Services.Patterns.{
  Pattern, Place, at_boundary, ends_of, flat_map, fold_case, is_word_char, occurs, places_from,
  starts_at, step_over, word_after, word_before,
}

abbrev pub ascii_lower : ℕ → ℕ
ascii_lower c = if leb 65 c && leb c 90 then c + 32 else c

module _ (wide : ℕ → Bool) where
  abbrev lowered : Place → Place
  lowered p = record { last = Option.map ascii_lower p.last; rest = map ascii_lower p.rest }

  fold_case-ascii_lower : (c : ℕ) → fold_case (ascii_lower c) ≡ fold_case c
  unfolding fold_case
  fold_case-ascii_lower c = ground arith

  is_word_char-ascii_lower : (c : ℕ) → is_word_char wide (ascii_lower c) ≡ is_word_char wide c
  unfolding is_word_char
  is_word_char-ascii_lower c = ground arith

  word_before-lowered :
      (o : Option ℕ) → word_before wide (Option.map ascii_lower o) ≡ word_before wide o
  word_before-lowered none = refl
  word_before-lowered (some c) = is_word_char-ascii_lower c

  word_after-lowered : (s : Text) → word_after wide (map ascii_lower s) ≡ word_after wide s
  word_after-lowered [] = refl
  word_after-lowered (c ∷ s) = is_word_char-ascii_lower c

  map-append : {A B : Type 0} (f : A → B) (xs ys : List A) → map f (xs ++ ys) ≡ map f xs ++ map f ys
  map-append f [] ys = refl
  map-append f (x ∷ xs) ys = rw (map-append f xs ys) refl

  if-map :
      {A B : Type 0} (f : A → B) (b : Bool) (x : A)
      → (if b then f x ∷ [] else []) ≡ map f (if b then x ∷ [] else [])
  if-map f true x = refl
  if-map f false x = refl

  flat_map-lowered :
      (g : Place → List Place) (ps : List Place)
      → ((p : Place) → g (lowered p) ≡ map lowered (g p))
      → flat_map wide g (map lowered ps) ≡ map lowered (flat_map wide g ps)
  flat_map-lowered g [] h = refl
  flat_map-lowered g (p ∷ ps) h =
      rw (h p, flat_map-lowered g ps h, map-append lowered (g p) (flat_map wide g ps)) refl

  step_over-lowered :
      (c : ℕ) (s : Text) → step_over wide c (map ascii_lower s) ≡ map lowered (step_over wide c s)
  step_over-lowered c [] = refl
  step_over-lowered c (d ∷ s) =
      rw (fold_case-ascii_lower d)
        (if-map lowered (fold_case c == fold_case d) (record { last = some d; rest = s }))

  places_from-lowered :
      (o : Option ℕ) (s : Text)
      → places_from wide (Option.map ascii_lower o) (map ascii_lower s)
        ≡ map lowered (places_from wide o s)
  places_from-lowered o [] = refl
  places_from-lowered o (c ∷ s) = rw (places_from-lowered (some c) s) refl

  ahead-lowered :
      (p : Place) (ps : List Place)
      → (if is_empty (map lowered ps) then [] else lowered p ∷ [])
        ≡ map lowered (if is_empty ps then [] else p ∷ [])
  ahead-lowered p [] = refl
  ahead-lowered p (q ∷ ps) = refl

  ends_of-lowered :
      (a : Pattern) (p : Place) → ends_of wide a (lowered p) ≡ map lowered (ends_of wide a p)
  unfolding ends_of
  ends_of-lowered Pattern.always p = refl
  ends_of-lowered Pattern.boundary p =
      rw (word_before-lowered p.last, word_after-lowered p.rest)
        (if-map lowered (at_boundary wide p) p)
  ends_of-lowered Pattern.anything p = places_from-lowered p.last p.rest
  ends_of-lowered (Pattern.letter c) p = step_over-lowered c p.rest
  ends_of-lowered (Pattern.chain a b) p =
      rw (ends_of-lowered a p)
        (flat_map-lowered (ends_of wide b) (ends_of wide a p) (ends_of-lowered b))
  ends_of-lowered (Pattern.either a b) p =
      rw (ends_of-lowered a p, ends_of-lowered b p)
        (sym (map-append lowered (ends_of wide a p) (ends_of wide b p)))
  ends_of-lowered (Pattern.maybe a) p =
      rw (ends_of-lowered a p) (sym (map-append lowered (ends_of wide a p) (p ∷ [])))
  ends_of-lowered (Pattern.ahead a) p =
      rw (ends_of-lowered a p) (ahead-lowered p (ends_of wide a p))

  is_empty-map : (ps : List Place) → is_empty (map lowered ps) ≡ is_empty ps
  is_empty-map [] = refl
  is_empty-map (p ∷ ps) = refl

  any-lowered :
      (a : Pattern) (ps : List Place)
      → any (starts_at wide a) (map lowered ps) ≡ any (starts_at wide a) ps
  any-lowered a [] = refl
  any-lowered a (p ∷ ps) =
      rw (ends_of-lowered a p, is_empty-map (ends_of wide a p), any-lowered a ps) refl

  occurs-ascii_lower :
      (a : Pattern) (s : Text) → occurs wide a (map ascii_lower s) ≡ occurs wide a s
  unfolding occurs
  occurs-ascii_lower a s = rw (places_from-lowered none s) (any-lowered a (places_from wide none s))

  matches-ascii_lower :
      (rule : AnalysisRule) (s : Text) → matches wide rule (map ascii_lower s) ≡ matches wide rule s
  unfolding matches
  matches-ascii_lower rule s = go rule.patterns
    where
      go :
          (ps : List Pattern)
          → any (λ a. occurs wide a (map ascii_lower s)) ps ≡ any (λ a. occurs wide a s) ps
      go [] = refl
      go (a ∷ ps) = rw (occurs-ascii_lower a s, go ps) refl

  first_answer-ascii_lower :
      (list : List AnalysisRule) (severity : Option Severity) (s : Text)
      → first_answer wide list severity (map ascii_lower s) ≡ first_answer wide list severity s
  unfolding first_answer
  first_answer-ascii_lower [] severity s = refl
  first_answer-ascii_lower (rule ∷ rest) severity s =
      rw (matches-ascii_lower rule s, first_answer-ascii_lower rest severity s) refl

  content_of-ascii_lower :
      (i : IncidentRequest)
      → map ascii_lower (content_of i)
        ≡ map ascii_lower i.error ++ line_feed ∷ map ascii_lower i.log
  content_of-ascii_lower i = map-append ascii_lower i.error (line_feed ∷ i.log)

-- Incidents whose errors and logs are the same up to the case of ASCII letters, and whose
-- severities are the same, get the same response.
pub analyze_incident_case :
    (wide : ℕ → Bool) (i j : IncidentRequest)
    → map ascii_lower i.error ≡ map ascii_lower j.error
    → map ascii_lower i.log ≡ map ascii_lower j.log
    → i.severity ≡ j.severity
    → analyze_incident wide i ≡ analyze_incident wide j
unfolding analyze_incident
analyze_incident_case wide i j e l s =
    sym (first_answer-ascii_lower wide rules i.severity (content_of i))
    ∙ (rw (content_of-ascii_lower wide i, content_of-ascii_lower wide j, e, l, s) refl)
    ∙ first_answer-ascii_lower wide rules j.severity (content_of j)
