-- ===== src/Agent/Env/Rules.antt =====
-- Rules for the methods that meet the environment, for statements about the database.
use ai_support_engineering_p.Agent.Env.{Env, M, World, ask, commit, transaction}
use ai_support_engineering_p.Agent.Failure.{Failure, sqlalchemy}
use ai_support_engineering_p.Common.{Option, Text, none, refl, some, ℕ, ◌≡◌}
use ai_support_engineering_p.Common.Exec.{Result, err, lift, ok}
use ai_support_engineering_p.Common.Exec.Triple.{Ends, Triple}
use ai_support_engineering_p.Db.{Db}

-- What the work of a session must establish where it does not raise.
abbrev pub Committed : {A : Type 0} → (A → Db → Type 0) → Result Failure (A × Db) → Type 0
Committed Q (ok (a, db)) = Q a db
Committed Q (err e) = Unit

module _ {A : Type 0} (Q : A → Db → Type 0) where
  commit-Ends :
      (R : Db → Type 0) (w : World) (o : Result Failure (A × Db))
      → R w.db
      → Committed Q o
      → Ends (λ a w'. Q a w'.db) (λ e w'. R w'.db) (commit w o)
  commit-Ends R w (ok (a, db)) r h = h
  commit-Ends R w (err e) r h = r

  session_result :
      (fault : Option Text) (o : Result Failure (A × Db))
      → Committed Q o
      → Committed Q (elim fault [ some message ↦ err (sqlalchemy message) | none ↦ o ])
  session_result none o h = h
  session_result (some message) o h = tt

-- From a database with `P` a method leaves one with `Q` if it returns and one with `R` if it raises.
abbrev pub Db-Triple :
    {A : Type 0} → (Db → Type 0) → M A → (A → Db → Type 0) → (Db → Type 0) → Type 0
Db-Triple P m Q R = Triple (λ w. P w.db) m (λ a w. Q a w.db) (λ e w. R w.db)

module _ {A : Type 0} (P : Db → Type 0) (Q : A → Db → Type 0) (R : Db → Type 0) where
  pub Triple-transaction :
      (env : Env) (body : Db → Result Failure (A × Db))
      → ((db : Db) → P db → R db)
      → ((db : Db) → P db → Committed Q (body db))
      → Db-Triple P (transaction env body) Q R
  unfolding transaction
  Triple-transaction env body r h = record {
    at = λ w p.
        commit-Ends Q R w _ (r w.db p)
          (session_result Q (env.db_fault w.tick) (body w.db) (h w.db p));
  }

pub Triple-ask : {A : Type 0} (P R : Db → Type 0) (f : ℕ → A) → Db-Triple P (ask f) (λ a. P) R
unfolding ask
Triple-ask P R f = record { at = λ w p. p }

pub Triple-lift :
    {A : Type 0} (P R : Db → Type 0) (Q : A → Type 0) (r : Result Failure A)
    → ((db : Db) → P db → R db)
    → ((a : A) → r ≡ ok a → Q a)
    → Db-Triple P (lift r) (λ a db. P db × Q a) R
unfolding lift
Triple-lift P R Q (ok a) h k = record { at = λ w p. (p, k a refl) }
Triple-lift P R Q (err e) h k = record { at = λ w p. h w.db p }
