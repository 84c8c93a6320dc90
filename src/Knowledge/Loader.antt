-- ===== src/Knowledge/Loader.antt =====
-- `load_knowledge_sources` of knowledge/loader.py. The file system answers as functions of a path;
-- `hash` is the SHA-256 digest of `content_hash`.
pub mod Loaded
use ai_support_engineering_p.Common.{
  Bool, List, Option, String, Text, [], any, if◌then◌else◌, none, some, starts_with, ◌&&◌, ◌++◌,
  ◌==◌, ◌∷◌,
}
use ai_support_engineering_p.Common.Exec.{Result, err, ok}
use ai_support_engineering_p.Knowledge.Whitespace.{line_feed, strip}
use text.Mathlib.Text.{◌==◌ as str_eq}

-- An entry of the manifest that pydantic has validated (`KnowledgeManifestEntry`).
pub record KnowledgeManifestEntry : Type 0 where
  pub source_id : String
  pub path : String
  pub title : String
  pub category : String
  pub version : String

pub record KnowledgeSource : Type 0 where
  pub source_id : String
  pub title : String
  pub category : String
  pub version : String
  pub path : String
  pub content : Text
  pub content_hash : String

pub data LoadError : Type 0 where
  duplicate_source escaping_path unreadable_file : String → LoadError

pub record Files : Type 0 where
  -- whether the resolved path lies under the resolved base directory
  pub is_relative_to_root : String → Bool
  -- `read_text(encoding="utf-8")`, with none where it raises
  pub read_text : String → Option Text
  pub hash : Text → String

-- `text.replace("\r\n", "\n")`
unfoldable pub replace_newlines : Text → Text
replace_newlines [] = []
replace_newlines (c ∷ s) =
    let rest = replace_newlines s in
    if c == 13 && starts_with (line_feed ∷ []) s then rest else c ∷ rest

unfoldable pub normalized : Text → Text
normalized raw = strip (replace_newlines raw) ++ line_feed ∷ []

module _ (files : Files) where
  abbrev pub source_of : KnowledgeManifestEntry → Text → KnowledgeSource
  source_of entry raw = record {
    source_id = entry.source_id;
    title = entry.title;
    category = entry.category;
    version = entry.version;
    path = entry.path;
    content = normalized raw;
    content_hash = files.hash (normalized raw);
  }

  unfoldable pub load_entry :
      List String → KnowledgeManifestEntry → Result LoadError KnowledgeSource
  load_entry seen entry =
      if any (str_eq entry.source_id) seen
      then err (duplicate_source entry.source_id)
      else if files.is_relative_to_root entry.path
      then elim (files.read_text entry.path) [
        | some raw ↦ ok (source_of entry raw)
        | none ↦ err (unreadable_file entry.path)
      ]
      else err (escaping_path entry.path)

  abbrev pub cons_source :
      KnowledgeSource
      → Result LoadError (List KnowledgeSource)
      → Result LoadError (List KnowledgeSource)
  cons_source source (ok sources) = ok (source ∷ sources)
  cons_source source (err e) = err e

  -- The loop over the entries, with the identifiers seen so far.
  unfoldable pub load_entries :
      List String → List KnowledgeManifestEntry → Result LoadError (List KnowledgeSource)
  load_entries seen [] = ok []
  load_entries seen (entry ∷ entries) = elim (load_entry seen entry) [
    | ok source ↦ cons_source source (load_entries (entry.source_id ∷ seen) entries)
    | err e ↦ err e
  ]

  unfoldable pub load_knowledge_sources :
      List KnowledgeManifestEntry → Result LoadError (List KnowledgeSource)
  load_knowledge_sources entries = load_entries [] entries
