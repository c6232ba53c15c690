-- ===== src/Api/Auth.antt =====
-- internal/api/auth.go: the check of the API key and the limit on failed attempts for each client address.
-- Times are seconds. Each call of the limiter takes the mutex for itself, so other requests can come between
-- the two calls that one request makes.
pub mod Limit
pub mod Headers
use goincus.Base.{
  ℕ, suc, ◌+◌, String, Bool, true, false, not, ◌||◌, Option, none, some, ◌==◌, String-Eq, leb, ltb,
  if◌then◌else◌,
}
use goincus.Config.{Config, valid_api_key}

-- `authBucket`
pub record AuthBucket : Type 0 where
  pub fails : ℕ
  pub reset_at : ℕ

-- `hits` of `authLimiter`
abbrev pub Hits : Type 0
Hits = String → Option AuthBucket

-- `newAuthLimiter(20, time.Minute)`
abbrev pub max_fails : ℕ
max_fails = 20

abbrev pub window : ℕ
window = 60

abbrev pub put : String → Option AuthBucket → Hits → Hits
put ip b hits other = if other == ip then b else hits other

abbrev pub current : ℕ → Option AuthBucket → AuthBucket
current now none = record { fails = 0; reset_at = now + window }
current now (some b) =
    if ltb b.reset_at now then record { fails = 0; reset_at = now + window } else b

-- `bucket`: one that is missing or over is replaced.
abbrev pub bucket : ℕ → String → Hits → AuthBucket
bucket now ip hits = current now (hits ip)

-- `blocked`, which stores the bucket that it looks at.
unfoldable pub blocked : ℕ → String → Hits → Bool × Hits
blocked now ip hits = let b = bucket now ip hits in (leb max_fails b.fails, put ip (some b) hits)

-- `fail`
unfoldable pub fail : ℕ → String → Hits → Hits
fail now ip hits =
    let b = bucket now ip hits in put ip (some (record b { fails = b.fails + 1 })) hits

-- `success`
abbrev pub success : String → Hits → Hits
success ip hits = put ip none hits

-- What becomes of a request: it is served, or answered with 429 or with 401.
pub data Outcome : Type 0 where
  served too_many unauthorized : Outcome

abbrev pub is_public : String → Bool
is_public path = path == "/healthz" || path == "/api/v1/health"

-- `APIKeyAuth`, with the two times at which the limiter looks at the clock, and what other requests do to
-- the buckets between `blocked` and `fail` or `success`.
unfoldable pub authenticate :
    Config
    → (at_check at_fail : ℕ) → (path ip key : String) → (between : Hits → Hits) → Hits
    → Outcome × Hits
unfolding blocked fail
authenticate c at_check at_fail path ip key between hits =
    if is_public path
    then (served, hits)
    else let (refused, hits') = blocked at_check ip hits in
      if refused
      then (too_many, hits')
      else if not (valid_api_key c key)
      then (unauthorized, fail at_fail ip (between hits'))
      else (served, success ip (between hits'))
