-- ===== src/Tests/Allocator.antt =====
-- Runs of the allocator of ports on the small servers.
use goincus.Base.{
  ℕ, List, ◌≤◌, ◌≡◌, refl, Bool, true, false, not, ◌&&◌, [], ◌∷◌, contains, ℕ-Eq, ◌==◌, arith,
}
use goincus.Base.Int.{pos}
use goincus.Base.Result.{ok, err, failure}
use goincus.System.{System, World}
use goincus.Redis.{ports_key, lock_key, key}
use goincus.Redis.Laws.{RedisLaws}
use goincus.Ports.{allocate_block, reserve, release_block}
use goincus.Ports.Scan.{run_free}
use goincus.Ports.Mark.{is_marked, MarksOnly, block_of, release_block_lem}
use goincus.Ports.Allocate.{LowestFree, allocate_block_ok, allocate_block-disjoint, is_busy}
use goincus.Ports.Failure.{Restored, allocate_block_failed}
use goincus.Ports.Progress.{Answers, Returns, LockFree, allocate_block-Returns}
use goincus.Ports.Reserve.{reserve_ok}
use goincus.Store.Ports.{used_host_ports}
use goincus.Ports.Refine.{PortCall, allocate, release, PoolRun, answer_all, answer_all-PoolRun}
use goincus.Tests.Servers.{small_system, small_world, small_laws, all_work}

abbrev system : System
system = small_system all_work

abbrev world : World system
world = small_world all_work

abbrev laws : RedisLaws system.redis
laws = small_laws all_work

first_block : (allocate_block system (pos 3) world).0 ≡ ok (20004 ∷ 20005 ∷ 20006 ∷ [])
unfolding allocate_block ports_key key lock_key
first_block = refl

second_block :
    (allocate_block system (pos 2) (allocate_block system (pos 3) world).1).0
    ≡ ok (20007 ∷ 20008 ∷ [])
unfolding allocate_block ports_key key lock_key
second_block = refl

allocate_block_ok_example :
    (n start : ℕ) × (pos 3 ≡ pos n)
    × LowestFree system laws world n start
    × ((20004 ∷ 20005 ∷ 20006 ∷ []) ≡ block_of n start)
    × MarksOnly system laws
        (20004 ∷ 20005 ∷ 20006 ∷ [])
        world
        (allocate_block system (pos 3) world).1
allocate_block_ok_example = allocate_block_ok system laws (pos 3) world _ first_block

allocate_block-disjoint_example : contains {A = ℕ} (20007 ∷ 20008 ∷ []) 20005 ≡ false
allocate_block-disjoint_example =
    allocate_block-disjoint system laws (pos 3) (pos 2) world _ _ first_block second_block 20005
      refl

abbrev calls : List PortCall
calls = allocate (pos 3) ∷ release (20004 ∷ 20005 ∷ []) ∷ allocate (pos 9) ∷ []

answer_all-PoolRun_example :
    ((answer_all system calls world).1.db ≡ world.db)
    × PoolRun
        (used_host_ports world.db)
        20000
        20010
        calls
        (answer_all system calls world).0
        (is_marked system laws world)
        (is_marked system laws (answer_all system calls world).1)
answer_all-PoolRun_example = answer_all-PoolRun system laws (λ k p s. refl) calls world

-- The second port of the block cannot be marked.
breaks : ℕ → Bool
breaks p = p == 20005

abbrev broken : System
broken = small_system breaks

no_block : (allocate_block broken (pos 3) (small_world breaks)).0 ≡ err (failure "connection reset")
unfolding allocate_block breaks ports_key key lock_key
no_block = refl

allocate_block_failed_example :
    Restored broken
      (small_laws breaks)
      (λ k p s. refl)
      (small_world breaks)
      (allocate_block broken (pos 3) (small_world breaks)).1
allocate_block_failed_example =
    allocate_block_failed broken (small_laws breaks) (λ k p s. refl) (pos 3) (small_world breaks) _
      no_block

answers : Answers system
answers = record {
  database = λ t. refl;
  lookup = λ p s. (s.sets (ports_key system) p, refl);
  insert = λ p s. refl;
}

unheld : LockFree system world
unheld = refl

room : run_free (is_busy system laws world) 4 20004 ≡ true
unfolding ports_key key
room = refl

allocate_block-Returns_example : Returns (allocate_block system (pos 4) world).0
allocate_block-Returns_example =
    allocate_block-Returns system laws answers 4 20004 world unheld (omega arith) (omega arith)
      (omega arith) room

reserve_20008 : (reserve system (pos 20008) world).0 ≡ ok tt
unfolding reserve ports_key key lock_key
reserve_20008 = refl

reserve_ok_example :
    (p : ℕ) × (pos 20008 ≡ pos p)
    × (20000 ≤ p)
    × (p ≤ 20010)
    × (is_busy system laws world p ≡ false)
    × MarksOnly system laws (p ∷ []) world (reserve system (pos 20008) world).1
reserve_ok_example = reserve_ok system laws (pos 20008) world reserve_20008

release_block_lem_example :
    ((release_block system (20003 ∷ []) world).1.db ≡ world.db)
    × ((release_block system (20003 ∷ []) world).0 ≡ ok tt)
    × ((q : ℕ)
        → is_marked system laws (release_block system (20003 ∷ []) world).1 q
          ≡ (not (contains (20003 ∷ []) q) && is_marked system laws world q))
release_block_lem_example = release_block_lem system laws (λ k p s. refl) (20003 ∷ []) world
