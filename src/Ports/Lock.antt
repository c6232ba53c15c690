-- ===== src/Ports/Lock.antt =====
-- The lock in Redis around an allocation: it is a key of its own, so taking and dropping it leaves the
-- set of allocated ports alone.
use goincus.Base.{String, ◌≡◌, ◌≢◌, ◌⊎◌, String-Eq, arith}
use mathlib.Core.Path.{fun_ext}
use text.Mathlib.TextLemmas.{append_cancel_left}
use text.Mathlib.TextEquality.{eq_iff}
use goincus.Base.Result.{Error, ok, err}
use goincus.System.{System, World, Call}
use goincus.Redis.{lock_key, ports_key, key}
use goincus.Redis.Laws.{RedisLaws}
use goincus.Ports.{with_lock, alloc_lock_ttl}
use goincus.Ports.Mark.{is_marked}

ports-ne-lock_text : ◌≢◌ {A = String} "ports:allocated" "lock:port-alloc"
ports-ne-lock_text e = cc ((eq_iff "ports:allocated" "lock:port-alloc").1 e)

module _ (S : System) where
  ports_key-ne-lock_key : ports_key S ≢ lock_key S "port-alloc"
  unfolding ports_key lock_key key
  ports_key-ne-lock_key e = ports-ne-lock_text (append_cancel_left S.key_prefix _ _ e)

  abbrev pub locked : World S → World S
  locked w = record w {
    redis = (S.redis.set_nx (lock_key S "port-alloc") "1" alloc_lock_ttl w.redis).1;
  }

  abbrev pub unlocked : World S → World S
  unlocked w = record w { redis = (S.redis.del (lock_key S "port-alloc") w.redis).1 }

  -- A call that returns has run under the lock, which is dropped after it.
  pub with_lock_ok :
      {A : Type 0} (f : Error → Error) (body : Call S A) (w : World S) (a : A)
      → (with_lock S f body w).0 ≡ ok a
      → ((body (locked w)).0 ≡ ok a) × ((with_lock S f body w).1 ≡ unlocked (body (locked w)).1)
  unfolding with_lock
  with_lock_ok f body w a h = ground arith

  -- A call that fails has not run, or it has failed under the lock, which is dropped after it.
  pub with_lock_err :
      {A : Type 0} (f : Error → Error) (body : Call S A) (w : World S) (e : Error)
      → (with_lock S f body w).0 ≡ err e
      → ((with_lock S f body w).1 ≡ locked w)
        ⊎ (((body (locked w)).0 ≡ err e)
            × ((with_lock S f body w).1 ≡ unlocked (body (locked w)).1))
  unfolding with_lock
  with_lock_err f body w e h = ground arith

module _ (S : System) (L : RedisLaws S.redis) where
  pub is_marked-locked : (w : World S) → is_marked S L (locked S w) ≡ is_marked S L w
  is_marked-locked w = fun_ext λ q.
      L.set_nx_keeps (lock_key S "port-alloc") "1" alloc_lock_ttl w.redis (ports_key S) q
        (ports_key-ne-lock_key S)

  pub is_marked-unlocked : (w : World S) → is_marked S L (unlocked S w) ≡ is_marked S L w
  is_marked-unlocked w =
      fun_ext
        λ q. L.del_keeps (lock_key S "port-alloc") w.redis (ports_key S) q (ports_key-ne-lock_key S)
