-- ===== src/Api/Auth/Limit.antt =====
-- What the authentication lets through, and how many keys a client can try.
use goincus.Base.{
  ℕ, zero, suc, ltb, if◌then◌else◌, ◌+◌, ◌<◌, ◌≡◌, ◌⊎◌, String, true, List, [], ◌∷◌, String-Eq,
  arith,
}
use goincus.Config.{Config, valid_api_key}
use goincus.Api.Auth.{Hits, bucket, blocked, fail, max_fails, served, is_public, authenticate}

-- A request is served only if its path is public, or its key is one of the configured keys and its client
-- has fewer than 20 failed attempts in the current window.
pub authenticate-served :
    (c : Config) (t t' : ℕ) (path ip key : String) (between : Hits → Hits) (hits : Hits)
    → (authenticate c t t' path ip key between hits).0 ≡ served
    → (is_public path ≡ true)
      ⊎ ((valid_api_key c key ≡ true) × ((bucket t ip hits).fails < max_fails))
unfolding authenticate blocked
authenticate-served c t t' path ip key between hits h = ground arith

-- What requests from one address, on a path that is not public and with wrong keys, do to the limiter, in the
-- order in which they get its mutex: one calls `blocked`, or one that was let through calls `fail`.
pub data Move : Type 0 where
  checks fails_at : (now : ℕ) → Move

abbrev pub time_of : Move → ℕ
time_of (checks now) = now
time_of (fails_at now) = now

-- How many keys are looked at. `open_now` requests are between the two calls, at most `most` of them at a time.
unfoldable pub keys_tried : (most : ℕ) → (ip : String) → List Move → (open_now : ℕ) → Hits → ℕ
unfolding blocked fail
keys_tried most ip [] open_now hits = 0
keys_tried most ip (checks now ∷ moves) open_now hits =
    let (refused, hits') = blocked now ip hits in
    let later = keys_tried most ip moves open_now hits' in
    let let_through = keys_tried most ip moves (open_now + 1) hits' in
    if ltb open_now most
    then if refused then later else 1 + let_through
    else keys_tried most ip moves open_now hits
keys_tried most ip (fails_at now ∷ moves) zero hits = keys_tried most ip moves zero hits
keys_tried most ip (fails_at now ∷ moves) (suc n) hits =
    keys_tried most ip moves n (fail now ip hits)
