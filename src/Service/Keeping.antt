-- ===== src/Service/Keeping.antt =====
-- Calls that keep the tables consistent, however they end: the rules that put such calls together.
use goincus.Base.{suc, String, Bool, true, false, List, ◌∷◌, Option, none, some, if◌then◌else◌}
use goincus.Base.Result.{Result, Error, ok, err, wrap, failure}
use goincus.Store.Tables.{Query}
use goincus.Store.Consistent.{IsConsistent, Keeps}
use goincus.System.{
  System, World, Call, query, redis_call, incus_call, now, new_uuid, random_password, pure, fail,
  ◌>>=◌, ◌>>◌, ignore, attempt, settle, within, map_error, raise_if, bind_rule,
}

-- A call that leaves consistent tables consistent, in every world and on every path.
pub record Keeping (S : System) {A : Type 0} (m : Call S A) : Type 0 where
  pub keeps : (w : World S) → IsConsistent w.db → IsConsistent (m w).1.db

module _ (S : System) where
  pub pure-Keeping : {A : Type 0} (a : A) → Keeping S (pure a)
  pure-Keeping a = record { keeps = λ w c. c }

  pub fail-Keeping : {A : Type 0} (e : Error) → Keeping S {A = A} (fail e)
  fail-Keeping e = record { keeps = λ w c. c }

  pub settle-Keeping : {A : Type 0} (r : Result A) → Keeping S (settle r)
  settle-Keeping r = record { keeps = λ w c. c }

  pub raise_if-Keeping : (b : Bool) (e : Error) → Keeping S (raise_if b e)
  raise_if-Keeping true e = record { keeps = λ w c. c }
  raise_if-Keeping false e = record { keeps = λ w c. c }

  pub bind-Keeping :
      {A B : Type 0} (m : Call S A) (f : A → Call S B)
      → Keeping S m
      → ((a : A) → Keeping S (f a))
      → Keeping S (m >>= f)
  bind-Keeping m f km kf = record {
    keeps = λ w c.
        bind_rule m f w (λ r. IsConsistent r.1.db) (λ a h. (kf a).keeps (m w).1 (km.keeps w c))
          λ e h. km.keeps w c;
  }

  pub then-Keeping :
      {A B : Type 0} (m : Call S A) (k : Call S B) → Keeping S m → Keeping S k → Keeping S (m >> k)
  then-Keeping m k km kk = bind-Keeping m (λ _. k) km λ _. kk

  -- The body of a loop that collects what each round returns.
  pub collect-Keeping :
      {A B : Type 0} (m : Call S A) (k : Call S (List B)) (f : A → B)
      → Keeping S m
      → Keeping S k
      → Keeping S (m >>= λ a. (k >>= λ rest. pure (f a ∷ rest)))
  collect-Keeping m k f km kk =
      bind-Keeping m (λ a. (k >>= λ rest. pure (f a ∷ rest))) km
        λ a. bind-Keeping k (λ rest. pure (f a ∷ rest)) kk λ rest. pure-Keeping (f a ∷ rest)

  pub ignore-Keeping : {A : Type 0} (m : Call S A) → Keeping S m → Keeping S (ignore m)
  ignore-Keeping m k = record { keeps = k.keeps }

  pub attempt-Keeping : {A : Type 0} (m : Call S A) → Keeping S m → Keeping S (attempt m)
  attempt-Keeping m k = record { keeps = k.keeps }

  pub map_error-Keeping :
      {A : Type 0} (f : Error → Error) (m : Call S A) → Keeping S m → Keeping S (map_error f m)
  map_error-Keeping {A} f m k = record { keeps = λ w c. go w c (m w).0 }
    where
      go :
          (w : World S)
          → IsConsistent w.db
          → (r : Result A)
          → IsConsistent
              (elim r as (λ _. Result A × World S) [
                | ok a ↦ (ok a, (m w).1)
                | err e ↦ (err (f e), (m w).1)
              ]).1.db
      go w c (ok a) = k.keeps w c
      go w c (err e) = k.keeps w c

  pub within-Keeping :
      {A : Type 0} (t : String) (m : Call S A) → Keeping S m → Keeping S (within t m)
  within-Keeping t m k = map_error-Keeping (wrap t) m k

  pub now-Keeping : Keeping S (now S)
  now-Keeping = record { keeps = λ w c. c }

  pub new_uuid-Keeping : Keeping S (new_uuid S)
  new_uuid-Keeping = record { keeps = λ w c. c }

  pub random_password-Keeping : Keeping S (random_password S)
  random_password-Keeping = record { keeps = λ w c. c }

  pub redis_call-Keeping :
      {A : Type 0} (f : S.redis.State → Result A × S.redis.State) → Keeping S (redis_call S f)
  redis_call-Keeping f = record { keeps = λ w c. c }

  pub incus_call-Keeping :
      {A : Type 0} (f : S.incus.State → Result A × S.incus.State) → Keeping S (incus_call S f)
  incus_call-Keeping f = record { keeps = λ w c. c }

  pub query-Keeping : {A : Type 0} (q : Query A) → Keeps q → Keeping S (query S q)
  query-Keeping {A} q k = record { keeps = λ w c. go w c (S.readings.db_refuses w.ticks) }
    where
      run : World S → Result A × World S
      run w =
          let (r, d) = q (S.readings.time_at w.ticks) w.db in
          (r, record w { db = d; ticks = suc w.ticks })

      go :
          (w : World S)
          → IsConsistent w.db
          → (refused : Option String)
          → IsConsistent
              (elim refused as (λ _. Result A × World S) [
                | some m ↦ (err (failure m), record w { ticks = suc w.ticks })
                | none ↦ run w
              ]).1.db
      go w c (some m) = c
      go w c none = k (S.readings.time_at w.ticks) w.db c

  pub if-Keeping :
      {A : Type 0} (b : Bool) (x y : Call S A)
      → Keeping S x
      → Keeping S y
      → Keeping S (if b then x else y)
  if-Keeping true x y kx ky = kx
  if-Keeping false x y kx ky = ky

-- What the operations are put together from.
pub ruleset keeping = (
  pure-Keeping, fail-Keeping, settle-Keeping, raise_if-Keeping, bind-Keeping, then-Keeping,
  ignore-Keeping, attempt-Keeping, within-Keeping, now-Keeping, new_uuid-Keeping,
  random_password-Keeping, redis_call-Keeping, incus_call-Keeping, query-Keeping, if-Keeping,
)
