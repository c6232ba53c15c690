-- ===== src/Redis/Laws.antt =====
-- What Redis documents of the commands, as hypotheses about a server: `SISMEMBER` answers for the set
-- and changes nothing, `SADD` adds the one member, `SREM` takes the one member out, and the commands
-- on a string key leave the sets of the other keys alone. A command that ends with an error may have
-- been carried out or not.
use goincus.Base.{ℕ, String, ◌≡◌, ◌≢◌, Bool, true, false, ◌&&◌, ◌==◌, ℕ-Eq, String-Eq}
use goincus.Base.Result.{ok}
use goincus.System.{RedisServer}

-- The sets of a server before and after a command that concerns the member `p` of the set `k`.
abbrev pub OnlyMember : (before after : String → ℕ → Bool) → String → ℕ → Type 0
OnlyMember before after k p =
    (j : String) (q : ℕ) → ((j == k) && (q == p)) ≡ false → after j q ≡ before j q

pub record RedisLaws (R : RedisServer) : Type 0 where
  pub member : R.State → String → ℕ → Bool
  pub s_is_member_keeps :
      (k : String) (p : ℕ) (s : R.State) → member (R.s_is_member k p s).1 ≡ member s
  pub s_is_member_answers :
      (k : String) (p : ℕ) (s : R.State) (b : Bool)
      → (R.s_is_member k p s).0 ≡ ok b
      → b ≡ member s k p
  pub s_add_only :
      (k : String) (p : ℕ) (s : R.State) → OnlyMember (member s) (member (R.s_add k p s).1) k p
  pub s_add_adds :
      (k : String) (p : ℕ) (s : R.State)
      → (R.s_add k p s).0 ≡ ok tt
      → member (R.s_add k p s).1 k p ≡ true
  pub s_rem_only :
      (k : String) (p : ℕ) (s : R.State) → OnlyMember (member s) (member (R.s_rem k p s).1) k p
  pub s_rem_removes :
      (k : String) (p : ℕ) (s : R.State)
      → (R.s_rem k p s).0 ≡ ok tt
      → member (R.s_rem k p s).1 k p ≡ false
  pub set_nx_keeps :
      (k v : String) (ttl : ℕ) (s : R.State) (j : String) (q : ℕ)
      → j ≢ k
      → member (R.set_nx k v ttl s).1 j q ≡ member s j q
  pub del_keeps :
      (k : String) (s : R.State) (j : String) (q : ℕ)
      → j ≢ k
      → member (R.del k s).1 j q ≡ member s j q
