-- ===== src/Knowledge/Loader/Loaded.antt =====
-- What the loader accepts.
use mathlib.Core.List.Memᴰ
use ai_support_engineering_p.Common.{
  Bool-cases, List, Mem-none, Option-cases, String, Text, Unique, [], any, ap, false, inl, inr, map,
  none-Mem, refl, some, subst, sym, true, ◌∙◌, ◌∷◌, ◌≡◌, ◌≢◌,
}
use ai_support_engineering_p.Common.Exec.{Result, err, ok, ok_same}
use ai_support_engineering_p.Knowledge.Loader.{
  Files, KnowledgeManifestEntry, KnowledgeSource, LoadError, cons_source, load_entries, load_entry,
  load_knowledge_sources, source_of,
}
use mathlib.Core.List.{Memᴰ}
use mathlib.Core.Logic.{◌↔◌}
use text.Mathlib.Text.{◌==◌ as str_eq}
use text.Mathlib.TextEquality.{eq_iff}
use text.Mathlib.TextPositions.{eq_refl}

module _ (files : Files) where
  -- A source that was loaded stands for its entry.
  pub record Loads (entry : KnowledgeManifestEntry) (source : KnowledgeSource) : Type 0 where
    pub raw : Text
    pub readable : files.read_text entry.path ≡ some raw
    pub inside : files.is_relative_to_root entry.path ≡ true
    pub loaded : source ≡ source_of files entry raw

  -- Entry by entry, in the order of the manifest.
  abbrev pub AllLoad : List KnowledgeManifestEntry → List KnowledgeSource → Type 0
  AllLoad [] [] = Unit
  AllLoad (entry ∷ entries) (source ∷ sources) = Loads entry source × AllLoad entries sources
  AllLoad _ _ = ⊥

  load_entry_lem :
      (seen : List String) (entry : KnowledgeManifestEntry) (source : KnowledgeSource)
      → load_entry files seen entry ≡ ok source
      → (any (str_eq entry.source_id) seen ≡ false) × Loads entry source
  unfolding load_entry
  load_entry_lem seen entry source h = elim (Bool-cases (any (str_eq entry.source_id) seen)) [
    | inl e ↦ cc (rw e at h)
    | inr e ↦ elim (Bool-cases (files.is_relative_to_root entry.path)) [
      | inl i ↦ elim (Option-cases (files.read_text entry.path)) [
        | inl none_there ↦ cc (rw (e, i, none_there) at h)
        | inr (raw, q) ↦ (
          e,
          record {
            raw = raw;
            readable = q;
            inside = i;
            loaded = sym (ok_same refl (rw (e, i, q) at h));
          },
        )
      ]
      | inr i ↦ cc (rw (e, i) at h)
    ]
  ]

  -- The identifiers seen are none of those that follow, which are distinct.
  abbrev pub FreshIds : List String → List KnowledgeSource → Type 0
  FreshIds seen [] = Unit
  FreshIds seen (s ∷ sources) =
      (any (str_eq s.source_id) seen ≡ false) × FreshIds (s.source_id ∷ seen) sources

  cons_lem :
      (entry : KnowledgeManifestEntry) (entries : List KnowledgeManifestEntry) (seen : List String)
      (source : KnowledgeSource) (rest : Result LoadError (List KnowledgeSource))
      (sources : List KnowledgeSource)
      → (any (str_eq entry.source_id) seen ≡ false) × Loads entry source
      → ((more : List KnowledgeSource)
          → rest ≡ ok more
          → AllLoad entries more × FreshIds (entry.source_id ∷ seen) more)
      → cons_source files source rest ≡ ok sources
      → AllLoad (entry ∷ entries) sources × FreshIds seen sources
  cons_lem entry entries seen source (err e) sources p k h = cc
  cons_lem entry entries seen source (ok more) sources (fresh, l) k h =
      let (loads, ids) = k more refl in
      let same : source.source_id ≡ entry.source_id = ap (λ s. s.source_id) l.loaded in
      subst (λ l. AllLoad (entry ∷ entries) l × FreshIds seen l) (ok_same refl h)
        ((l, loads), (rw same fresh, rw same ids))

  load_entries_lem :
      (seen : List String) (entries : List KnowledgeManifestEntry) (sources : List KnowledgeSource)
      → load_entries files seen entries ≡ ok sources
      → AllLoad entries sources × FreshIds seen sources
  unfolding load_entries
  load_entries_lem seen [] sources h =
      subst (λ l. AllLoad [] l × FreshIds seen l) (ok_same refl h) (tt, tt)
  load_entries_lem seen (entry ∷ entries) sources h =
      step (load_entry files seen entry) refl h (load_entries_lem (entry.source_id ∷ seen) entries)
    where
      step :
          (r : Result LoadError KnowledgeSource)
          → load_entry files seen entry ≡ r
          → (elim r as (λ x. Result LoadError (List KnowledgeSource)) [
            | ok source ↦
                cons_source files source (load_entries files (entry.source_id ∷ seen) entries)
            | err e ↦ err e
          ])
            ≡ ok sources
          → ((more : List KnowledgeSource)
              → load_entries files (entry.source_id ∷ seen) entries ≡ ok more
              → AllLoad entries more × FreshIds (entry.source_id ∷ seen) more)
          → AllLoad (entry ∷ entries) sources × FreshIds seen sources
      step (err e) q h k = cc
      step (ok source) q h k =
          cons_lem entry entries seen source (load_entries files (entry.source_id ∷ seen) entries)
            sources (load_entry_lem seen entry source q) k h

  ids_seen :
      (seen : List String) (s : KnowledgeSource) (x : String)
      → any (str_eq s.source_id) seen ≡ false
      → Memᴰ x seen
      → x ≢ s.source_id
  ids_seen seen s x h m e =
      let hit : str_eq s.source_id x ≡ true = rw e (eq_refl s.source_id) in
      let miss = none-Mem (str_eq s.source_id) seen h m in cc

  load_knowledge_sources_lem :
      (entries : List KnowledgeManifestEntry) (sources : List KnowledgeSource)
      → load_knowledge_sources files entries ≡ ok sources
      → AllLoad entries sources × Unique (map (λ s. s.source_id) sources)
  unfolding load_knowledge_sources
  load_knowledge_sources_lem entries sources h =
      let (loads, ids) = load_entries_lem [] entries sources h in (loads, unique [] sources ids)
    where
      later :
          (seen : List String) (x : String) (sources : List KnowledgeSource)
          → Memᴰ x seen
          → FreshIds seen sources
          → (y : String) → Memᴰ y (map (λ s. s.source_id) sources)
          → x ≢ y
      later seen x [] m f y k = absurd (Memᴰ.not-nil k)
      later seen x (s ∷ sources) m f y (Memᴰ.head e) = λ q. ids_seen seen s x f.0 m (q ∙ e)
      later seen x (s ∷ sources) m f y (Memᴰ.tail k) =
          later (s.source_id ∷ seen) x sources (Memᴰ.tail m) f.1 y k

      unique :
          (seen : List String) (sources : List KnowledgeSource)
          → FreshIds seen sources
          → Unique (map (λ s. s.source_id) sources)
      unique seen [] f = tt
      unique seen (s ∷ sources) f = (
        later (s.source_id ∷ seen) s.source_id sources (Memᴰ.head refl) f.1,
        unique (s.source_id ∷ seen) sources f.1,
      )

  Loads-load_entry :
      (seen : List String) (entry : KnowledgeManifestEntry) (source : KnowledgeSource)
      → any (str_eq entry.source_id) seen ≡ false
      → Loads entry source
      → load_entry files seen entry ≡ ok source
  unfolding load_entry
  Loads-load_entry seen entry source fresh l =
      rw (fresh, l.inside, l.readable) (ap ok (sym l.loaded))

  AllLoad-load_entries :
      (seen : List String) (entries : List KnowledgeManifestEntry) (sources : List KnowledgeSource)
      → AllLoad entries sources
      → FreshIds seen sources
      → load_entries files seen entries ≡ ok sources
  unfolding load_entries
  AllLoad-load_entries seen [] [] a f = refl
  AllLoad-load_entries seen (entry ∷ entries) (source ∷ sources) a f =
      let same : source.source_id ≡ entry.source_id = ap (λ s. s.source_id) a.0.loaded in
      let fresh : any (str_eq entry.source_id) seen ≡ false = rw (sym same) f.0 in
      let rest : load_entries files (entry.source_id ∷ seen) entries ≡ ok sources =
        AllLoad-load_entries (entry.source_id ∷ seen) entries sources a.1 (rw (sym same) f.1) in
      step (load_entry files seen entry) (Loads-load_entry seen entry source fresh a.0) rest
    where
      step :
          (r : Result LoadError KnowledgeSource)
          → r ≡ ok source
          → load_entries files (entry.source_id ∷ seen) entries ≡ ok sources
          → (elim r as (λ x. Result LoadError (List KnowledgeSource)) [
            | ok q ↦ cons_source files q (load_entries files (entry.source_id ∷ seen) entries)
            | err e ↦ err e
          ])
            ≡ ok (source ∷ sources)
      step (ok q) e k = rw k (ap (λ z. ok (z ∷ sources)) (ok_same refl e))
      step (err x) e k = cc
  AllLoad-load_entries seen [] (source ∷ sources) a f = absurd a
  AllLoad-load_entries seen (entry ∷ entries) [] a f = absurd a

  fresh_ids :
      (seen : List String) (sources : List KnowledgeSource)
      → Unique (map (λ s. s.source_id) sources)
      → ((x : String)
          → Memᴰ x seen
          → (y : String) → Memᴰ y (map (λ s. s.source_id) sources)
          → x ≢ y)
      → FreshIds seen sources
  fresh_ids seen [] u h = tt
  fresh_ids seen (s ∷ sources) u h = (
    not_seen seen (λ x m. h x m s.source_id (Memᴰ.head refl)),
    fresh_ids (s.source_id ∷ seen) sources u.1 (λ x m y k. elim (Memᴰ.cases_cons m) [
      | inl e ↦ λ q. u.0 y k (sym e ∙ q)
      | inr j ↦ h x j y (Memᴰ.tail k)
    ]),
  )
    where
      differs : (x : String) → x ≢ s.source_id → str_eq s.source_id x ≡ false
      differs x n = elim (Bool-cases (str_eq s.source_id x)) [
        | inl e ↦ absurd (n (sym ((eq_iff s.source_id x).0 e)))
        | inr e ↦ e
      ]

      not_seen :
          (seen : List String)
          → ((x : String) → Memᴰ x seen → x ≢ s.source_id)
          → any (str_eq s.source_id) seen ≡ false
      not_seen seen n = Mem-none (str_eq s.source_id) seen (λ x m. differs x (n x m))

  -- The manifest loads as some sources exactly if each of these is its entry's file, in the order of
  -- the manifest, every path lies under the base directory, and no identifier comes twice.
  pub load_knowledge_sources_iff :
      (entries : List KnowledgeManifestEntry) (sources : List KnowledgeSource)
      → (load_knowledge_sources files entries ≡ ok sources)
        ↔ (AllLoad entries sources × Unique (map (λ s. s.source_id) sources))
  unfolding load_knowledge_sources
  load_knowledge_sources_iff entries sources = (
    load_knowledge_sources_lem entries sources,
    λ h.
        AllLoad-load_entries [] entries sources h.0
          (fresh_ids [] sources h.1 (λ x m. absurd (Memᴰ.not-nil m))),
  )
