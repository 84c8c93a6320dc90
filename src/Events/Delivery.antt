-- ===== src/Events/Delivery.antt =====
-- An event that is marked as published has reached the broker, and is not written again.
use mathlib.Core.List.Memᴰ
use ai_support_engineering_p.Common.{
  List, Mem-modify, String, ap, arith, count, count-modify, count-modify_new, false, find, inl, inr,
  modify-Mem, some, sym, true, ℕ, ◌+◌, ◌∙◌, ◌≡◌,
}
use ai_support_engineering_p.Db.{Db, OutboxEventRecord}
use ai_support_engineering_p.Events.Dispatcher.{DispatchOutcome, write_row}
use ai_support_engineering_p.Events.Outbox.{Broker, OutboxWorld, is_pending, is_published}
use mathlib.Core.Bool.{true≢false}
use mathlib.Core.List.{Memᴰ}
use text.Mathlib.TextEquality.{eq_iff}

abbrev pub ReachedBroker : Db → List String → Type 0
ReachedBroker db sent =
    (r : OutboxEventRecord) → Memᴰ r db.outbox → is_published r ≡ true → Memᴰ r.event_id sent

abbrev pub published_count : Db → ℕ
published_count db = count is_published db.outbox

pending_unpublished :
    (x : String) (r : OutboxEventRecord) → is_pending x r ≡ true → is_published r ≡ false
pending_unpublished x r h = ground arith

pub pending_id : (x : String) (r : OutboxEventRecord) → is_pending x r ≡ true → r.event_id ≡ x
pending_id x r h = (eq_iff r.event_id x).0 (ground arith)

published_other :
    (x : String) (r : OutboxEventRecord) → is_published r ≡ true → is_pending x r ≡ false
published_other x r h = ground arith

-- The outbox as dispatching started with it.
module _ (broker : Broker) (old : List OutboxEventRecord) where
  -- Events that are published have reached the broker, there are `n` of them, and those of the
  -- start are as they were.
  pub record Sound (n : ℕ) (db : Db) (sent : List String) : Type 0 where
    pub reached : ReachedBroker db sent
    pub total : published_count db ≡ n
    pub stay : (r : OutboxEventRecord) → Memᴰ r old → is_published r ≡ true → Memᴰ r db.outbox

  abbrev pub SoundWorld : ℕ → OutboxWorld → Type 0
  SoundWorld n w = Sound n w.db w.sent

  abbrev pub one_for : DispatchOutcome → ℕ
  one_for DispatchOutcome.published = 1
  one_for _ = 0

  pub deferred-Sound :
      (n : ℕ) (x : String) (f : OutboxEventRecord → OutboxEventRecord) (db : Db)
      (sent : List String)
      → ((r : OutboxEventRecord) → is_published (f r) ≡ is_published r)
      → Sound n db sent
      → Sound n (write_row broker x f db) sent
  deferred-Sound n x f db sent same s = record {
    reached = λ r m p. elim (modify-Mem (is_pending x) f db.outbox m) [
      | inl m' ↦ s.reached r m' p
      | inr (q, h, e) ↦
          absurd (true≢false (sym p ∙ ap is_published e ∙ same q ∙ pending_unpublished x q h))
    ];
    total = count-modify (is_pending x) is_published f db.outbox (λ r h. same r) ∙ s.total;
    stay = λ r m p. Mem-modify (is_pending x) f db.outbox (published_other x r p) (s.stay r m p);
  }

  pub published-Sound :
      (n : ℕ) (x : String) (f : OutboxEventRecord → OutboxEventRecord) (db : Db)
      (sent : List String) (a : OutboxEventRecord)
      → ((r : OutboxEventRecord) → is_published (f r) ≡ true)
      → ((r : OutboxEventRecord) → (f r).event_id ≡ r.event_id)
      → find (is_pending x) db.outbox ≡ some a
      → Memᴰ x sent
      → Sound n db sent
      → Sound (n + 1) (write_row broker x f db) sent
  published-Sound n x f db sent a marked key held there s = record {
    reached = λ r m p. elim (modify-Mem (is_pending x) f db.outbox m) [
      | inl m' ↦ s.reached r m' p
      | inr (q, h, e) ↦ Memᴰ.cast (ap (λ z. z.event_id) e ∙ key q ∙ pending_id x q h) there
    ];
    total =
        count-modify_new (is_pending x) is_published f db.outbox (pending_unpublished x)
          (λ r h. marked r) held
        ∙ ap (λ k. k + 1) s.total;
    stay = λ r m p. Mem-modify (is_pending x) f db.outbox (published_other x r p) (s.stay r m p);
  }
