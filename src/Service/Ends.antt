-- ===== src/Service/Ends.antt =====
-- What holds of the result and the tables where a call ends without an error: the rules for the last step
-- of a call.
use goincus.Base.{ℕ, suc, String, Option, none, some, ◌≡◌}
use goincus.Base.Result.{Result, ok, err, failure}
use goincus.Store.Tables.{Db, Query}
use goincus.System.{System, World, Call, query, pure, ◌>>=◌, ◌>>◌, bind_rule}

pub record Ends (S : System) {A : Type 0} (Q : A → Db → Type 0) (m : Call S A) : Type 0 where
  pub ends : (w : World S) (a : A) → (m w).0 ≡ ok a → Q a (m w).1.db

module _ (S : System) where
  pub bind-Ends :
      {A B : Type 0} (Q : B → Db → Type 0) (m : Call S A) (f : A → Call S B)
      → ((a : A) → Ends S Q (f a))
      → Ends S Q (m >>= f)
  bind-Ends Q m f last = record {
    ends = λ w.
        bind_rule m f w (λ r. (b : _) → r.0 ≡ ok b → Q b r.1.db)
          (λ a h b h'. (last a).ends (m w).1 b h') λ e h b h'. absurd (cc h');
  }

  pub then-Ends :
      {A B : Type 0} (Q : B → Db → Type 0) (m : Call S A) (k : Call S B)
      → Ends S Q k
      → Ends S Q (m >> k)
  then-Ends Q m k last = bind-Ends Q m (λ _. k) λ _. last

  pub pure-Ends :
      {A : Type 0} (Q : A → Db → Type 0) (a : A) → ((d : Db) → Q a d) → Ends S Q (pure a)
  pure-Ends Q a q = record { ends = λ w b h. let e : a ≡ b = cc h in rw (← e) (q w.db) }

  -- A query that is answered has run.
  pub query-Ends :
      {A : Type 0} (Q : A → Db → Type 0) (q : Query A)
      → ((now : ℕ) (d : Db) (a : A) → (q now d).0 ≡ ok a → Q a (q now d).1)
      → Ends S Q (query S q)
  query-Ends {A} Q q run = record { ends = λ w a h. go w a (S.readings.db_refuses w.ticks) h }
    where
      go :
          (w : World S) (a : A) (refused : Option String)
          → (elim refused as (λ _. Result A × World S) [
            | some m ↦ (err (failure m), record w { ticks = suc w.ticks })
            | none ↦ (
              (q (S.readings.time_at w.ticks) w.db).0,
              record w { db = (q (S.readings.time_at w.ticks) w.db).1; ticks = suc w.ticks },
            )
          ]).0
            ≡ ok a
          → Q a
              (elim refused as (λ _. Result A × World S) [
                | some m ↦ (err (failure m), record w { ticks = suc w.ticks })
                | none ↦ (
                  (q (S.readings.time_at w.ticks) w.db).0,
                  record w { db = (q (S.readings.time_at w.ticks) w.db).1; ticks = suc w.ticks },
                )
              ]).1.db
      go w a (some m) h = absurd (cc h)
      go w a none h = run (S.readings.time_at w.ticks) w.db a h
