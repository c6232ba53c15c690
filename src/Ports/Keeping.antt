-- ===== src/Ports/Keeping.antt =====
-- The allocator reads the tables and changes nothing in them.
use goincus.Base.{ℕ, zero, suc, ◌+◌, ◌++◌, List, [], ◌∷◌, not}
use goincus.Base.Int.{ℤ}
use goincus.Base.Result.{Result, Error, ok, err}
use goincus.Store.Consistent.{Keeps}
use goincus.Store.Ports.{list_used_host_ports}
use goincus.System.{System, Call, fail, ◌>>◌, finally, raise_if, map_error}
use goincus.Redis.{acquire_lock, release_lock}
use goincus.Service.Keeping.{Keeping, keeping, bind-Keeping, then-Keeping, map_error-Keeping}
use goincus.Ports.{
  is_free, block_is_free, release_block, mark_block, search_block, allocate_locked, with_lock,
  allocate_block, first_port, allocate, reserve_locked, reserve, alloc_lock_ttl, busy,
}

module _ (S : System) where
  list_used_host_ports-Keeps : Keeps list_used_host_ports
  list_used_host_ports-Keeps now d c = c

  is_free-Keeping : (used : List ℕ) (p : ℕ) → Keeping S (is_free S used p)
  unfolding is_free
  is_free-Keeping used p = search keeping depth 12

  block_is_free-Keeping : (used : List ℕ) (n p : ℕ) → Keeping S (block_is_free S used n p)
  unfolding block_is_free
  block_is_free-Keeping used zero p = search keeping
  block_is_free-Keeping used (suc n) p =
      search (keeping, is_free-Keeping, block_is_free-Keeping used n) depth 12

  pub release_block-Keeping : (ports : List ℕ) → Keeping S (release_block S ports)
  unfolding release_block
  release_block-Keeping [] = search keeping
  release_block-Keeping (p ∷ ports) = record {
    keeps = λ w c. (release_block-Keeping ports).keeps _ c;
  }

  mark_block-Keeping : (n p : ℕ) (block : List ℕ) → Keeping S (mark_block S n p block)
  unfolding mark_block
  mark_block-Keeping zero p block = search keeping
  mark_block-Keeping (suc n) p block =
      search (keeping, step (mark_block-Keeping n (p + 1) (block ++ p ∷ [])))
    where
      step :
          Keeping S (mark_block S n (p + 1) (block ++ p ∷ []))
          → (r : Result (Unit {0}))
          → Keeping S (elim r as (λ _. Call S (List ℕ)) [
            | ok _ ↦ mark_block S n (p + 1) (block ++ p ∷ [])
            | err e ↦ release_block S block >> fail e
          ])
      step rest (ok _) = rest
      step rest (err e) = search (keeping, release_block-Keeping)

  search_block-Keeping :
      (used : List ℕ) (size rounds start : ℕ) → Keeping S (search_block S used size rounds start)
  unfolding search_block
  search_block-Keeping used size zero start = search keeping
  search_block-Keeping used size (suc rounds) start =
      search
        (keeping, block_is_free-Keeping, mark_block-Keeping, search_block-Keeping used size rounds)
        depth 12

  allocate_locked-Keeping : (size : ℕ) → Keeping S (allocate_locked S size)
  unfolding allocate_locked
  allocate_locked-Keeping size =
      search (keeping, list_used_host_ports-Keeps, search_block-Keeping) depth 12

  finally-Keeping :
      {A B : Type 0} (m : Call S A) (cleanup : Call S B)
      → Keeping S m
      → Keeping S cleanup
      → Keeping S (finally m cleanup)
  finally-Keeping m cleanup km kc = record { keeps = λ w c. kc.keeps (m w).1 (km.keeps w c) }

  with_lock-Keeping :
      {A : Type 0} (f : Error → Error) (body : Call S A)
      → Keeping S body
      → Keeping S (with_lock S f body)
  unfolding with_lock
  with_lock-Keeping f body k =
      let unlock = release_lock S "port-alloc" in
      bind-Keeping S (map_error f (acquire_lock S "port-alloc" alloc_lock_ttl))
        (λ taken. raise_if (not taken) busy >> finally body unlock)
        (search (keeping, map_error-Keeping))
        λ taken.
          then-Keeping S (raise_if (not taken) busy) (finally body unlock) (search keeping)
            (finally-Keeping body unlock k (search keeping))

  pub allocate_block-Keeping : (size : ℤ) → Keeping S (allocate_block S size)
  unfolding allocate_block
  allocate_block-Keeping size =
      search (keeping, with_lock-Keeping, allocate_locked-Keeping) depth 12

  pub first_port-Keeping : (ports : List ℕ) → Keeping S (first_port S ports)
  first_port-Keeping [] = search keeping
  first_port-Keeping (p ∷ ports) = search keeping

  pub allocate-Keeping : Keeping S (allocate S)
  unfolding allocate
  allocate-Keeping = search (keeping, allocate_block-Keeping, first_port-Keeping) depth 12

  reserve_locked-Keeping : (p : ℕ) → Keeping S (reserve_locked S p)
  unfolding reserve_locked
  reserve_locked-Keeping p = search (keeping, list_used_host_ports-Keeps) depth 12

  pub reserve-Keeping : (port : ℤ) → Keeping S (reserve S port)
  unfolding reserve
  reserve-Keeping port = search (keeping, with_lock-Keeping, reserve_locked-Keeping) depth 12
