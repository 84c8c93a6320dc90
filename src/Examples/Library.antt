-- ===== src/Examples/Library.antt =====
-- Witnesses for the loader and for ingestion: two runbooks, ingested twice.
use mathlib.Core.List.Memᴰ
use ai_support_engineering_p.Common.{
  List, String, Unique, [], codes, inl, inr, map, none, refl, some, true, ◌+◌, ◌∷◌, ◌≡◌,
}
use ai_support_engineering_p.Common.Exec.{ok, pure, ◌>>=◌}
use ai_support_engineering_p.Knowledge.Chunking.{
  chunk_document, chunk_texts, number_chunks, pack_loop, pack_step, paragraphs_of, units_of,
}
use ai_support_engineering_p.Knowledge.Ingestion.{
  Embedder, IngestionResult, KnowledgeWorld, add_pairs, ingest, ingest_loop, ingest_source,
  is_current, nothing_ingested, replace_source, up_to_date,
}
use ai_support_engineering_p.Knowledge.Ingestion.Idempotent.{ingest-again}
use ai_support_engineering_p.Knowledge.Ingestion.Rounds.{HasText}
use ai_support_engineering_p.Knowledge.Ingestion.Valid.{Valid}
use ai_support_engineering_p.Knowledge.Loader.{
  Files, KnowledgeManifestEntry, KnowledgeSource, load_entries, load_entry, load_knowledge_sources,
  normalized, replace_newlines, source_of,
}
use ai_support_engineering_p.Knowledge.Loader.Loaded.{AllLoad, load_knowledge_sources_iff}
use ai_support_engineering_p.Knowledge.Tables.{delete_chunks, prepare_document}
use ai_support_engineering_p.Knowledge.Whitespace.{
  break_length, is_space, join, left_strip, right_strip, split_blocks, words_from,
}
use mathlib.Core.List.{Memᴰ}
use mathlib.Core.Logic.{◌↔◌}

abbrev pub sample_files : Files
sample_files = record {
  is_relative_to_root = λ path. true;
  read_text = λ path. some (codes "ab cd");
  hash = λ content. "h";
}

abbrev entry_named : String → KnowledgeManifestEntry
entry_named x = record {
  source_id = x;
  path = "runbook.md";
  title = "Runbook";
  category = "http";
  version = "1";
}

abbrev sample_entries : List KnowledgeManifestEntry
sample_entries = entry_named "timeouts" ∷ entry_named "tokens" ∷ []

abbrev sample_sources : List KnowledgeSource
sample_sources =
    source_of sample_files (entry_named "timeouts") (codes "ab cd")
    ∷ source_of sample_files (entry_named "tokens") (codes "ab cd")
    ∷ []

loads_sources : load_knowledge_sources sample_files sample_entries ≡ ok sample_sources
unfolding load_knowledge_sources load_entries load_entry
loads_sources = refl

load_knowledge_sources_iff_example :
    (load_knowledge_sources sample_files sample_entries ≡ ok sample_sources) ↔ (
      AllLoad sample_files sample_entries sample_sources
      × Unique (map (λ s. s.source_id) sample_sources))
load_knowledge_sources_iff_example =
    load_knowledge_sources_iff sample_files sample_entries sample_sources

abbrev pub sample_embedder : Embedder
sample_embedder = record {
  provider_name = "ollama";
  model_name = "nomic";
  dimensions = 768;
  embed_texts = λ n texts. ok (map (λ t. 1 ∷ []) texts);
  session_fault = λ n. none;
  hash = λ content. "h";
}

abbrev pub empty_library : KnowledgeWorld
empty_library = record {
  db = record { documents = []; chunks = []; embeddings = []; next_document = 1; next_chunk = 1 };
  tick = 0;
}

empty_library-Valid : Valid empty_library.db
empty_library-Valid = record {
  numbered = λ x i h. cc;
  apart = λ x y i h k. cc;
  owned = λ c m. absurd (Memᴰ.not-nil m);
  unshared = λ c c' m m' e. absurd (Memᴰ.not-nil m);
  embedded = λ e m. absurd (Memᴰ.not-nil m);
}

ingested : KnowledgeWorld
ingested = (ingest sample_embedder 100 sample_sources empty_library).1

abbrev first_result : IngestionResult
first_result = record { documents_updated = 2; documents_unchanged = 0; chunks_embedded = 2 }

ingests : ingest sample_embedder 100 sample_sources empty_library ≡ (ok first_result, ingested)
unfolding ingested ingest ingest_loop ingest_source ◌>>=◌ pure up_to_date is_current replace_source
    add_pairs prepare_document delete_chunks chunk_document chunk_texts paragraphs_of number_chunks
    pack_loop pack_step units_of split_blocks is_space break_length left_strip right_strip
    words_from join normalized replace_newlines
ingests = refl

sample_inked : (s : KnowledgeSource) → Memᴰ s sample_sources → HasText s
unfolding normalized replace_newlines left_strip right_strip is_space
sample_inked s m = elim (Memᴰ.cases_cons m) [
  | inl e ↦ rw e (λ q. cc)
  | inr k ↦ elim (Memᴰ.cases_cons k) [
    | inl e ↦ rw e (λ q. cc)
    | inr none_left ↦ absurd (Memᴰ.not-nil none_left)
  ]
]

ingest-again_example :
    (ingest sample_embedder 100 sample_sources ingested ≡ (
      ok (record nothing_ingested { documents_unchanged = 2 }),
      record ingested { tick = ingested.tick + 2 },
    ))
    × Valid ingested.db
ingest-again_example =
    ingest-again sample_embedder 100 sample_files sample_entries sample_sources empty_library
      ingested first_result loads_sources sample_inked empty_library-Valid ingests (λ n k. refl)
