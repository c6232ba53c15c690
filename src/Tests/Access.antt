-- ===== src/Tests/Access.antt =====
-- Requests to the API with right and wrong keys.
use goincus.Base.{◌<◌, ◌≡◌, ◌⊎◌, refl, true, List, [], ◌∷◌, none, some}
use goincus.Api.Auth.{AuthBucket, Hits, bucket, max_fails, served, is_public, authenticate}
use goincus.Config.{valid_api_key}
use goincus.Api.Auth.Limit.{Move, checks, fails_at, keys_tried, authenticate-served}
use goincus.Tests.Servers.{small_config}

abbrev nobody : Hits
nobody ip = none

abbrev nineteen : AuthBucket
nineteen = record { fails = 19; reset_at = 1_060 }

abbrev almost_full : Hits
almost_full ip = some nineteen

right_key :
    (authenticate small_config 1_000 1_000 "/api/v1/instances" "10.0.0.1" "key-1"
      (λ hits. hits)
      nobody).0
    ≡ served
unfolding authenticate valid_api_key
right_key = refl

authenticate-served_example :
    (is_public "/api/v1/instances" ≡ true)
    ⊎ ((valid_api_key small_config "key-1" ≡ true)
        × ((bucket 1_000 "10.0.0.1" nobody).fails < max_fails))
authenticate-served_example =
    authenticate-served small_config 1_000 1_000 "/api/v1/instances" "10.0.0.1" "key-1"
      (λ hits. hits) nobody right_key

-- Two requests of which the second one checks before the first one has counted its failure.
abbrev moves : List Move
moves = checks 1_000 ∷ checks 1_001 ∷ fails_at 1_002 ∷ fails_at 1_003 ∷ checks 1_004 ∷ []

two_looked_at : keys_tried 2 "10.0.0.1" moves 0 almost_full ≡ 2
unfolding keys_tried
two_looked_at = refl
