-- ===== src/Service/Status/Deletion.antt =====
-- What `DeleteInstance` (internal/service/service.go) promises.
use goincus.Base.{ℕ, ◌≡◌, refl, Bool, true, false, not, ◌&&◌, List, [], ◌∷◌, ◌==◌, ℕ-Eq, any, arith}
use goincus.Base.Result.{ok}
use goincus.Models.{Instance, deleted, is_live}
use goincus.Store.Tables.{Db, update_rows, soft_delete_instance}
use goincus.System.{System, World}
use goincus.Service.Ends.{Ends, bind-Ends, then-Ends, query-Ends}
use goincus.Service.Status.{delete_instance}

-- No live row has the identifier.
abbrev pub is_gone : ℕ → Db → Bool
is_gone id d = not (any (λ i. i.id == id && is_live i.status) d.instances)

soft_deleted :
    (id now : ℕ) (rows : List Instance)
    → any
        (λ i. i.id == id && is_live i.status)
        (update_rows id (λ i. record i { status = deleted; updated_at = now }) rows)
      ≡ false
unfolding update_rows
soft_deleted id now [] = refl
soft_deleted id now (i ∷ rows) = ground (arith, soft_deleted id now rows)

soft_delete_gone : (id now : ℕ) (d : Db) → is_gone id (soft_delete_instance id now d).1 ≡ true
soft_delete_gone id now d = ground (arith, soft_deleted id now d.instances)

module _ (S : System) where
  -- If `DeleteInstance` returns without an error, no row with the identifier is live, so that no later
  -- lookup finds the instance, whatever Incus, Redis and the earlier statements answered.
  pub delete_instance-is_gone :
      (id : ℕ) (w : World S)
      → (delete_instance S id w).0 ≡ ok tt
      → is_gone id (delete_instance S id w).1.db ≡ true
  unfolding delete_instance
  delete_instance-is_gone id w h = deletes.ends w tt h
    where
      deletes : Ends S (λ _ d. is_gone id d ≡ true) (delete_instance S id)
      deletes = search (bind-Ends, then-Ends, query-Ends, soft_delete_gone) depth 16
