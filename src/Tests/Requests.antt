-- ===== src/Tests/Requests.antt =====
-- Requests to the API of the small servers, and the CPU per cent of a guest.
use goincus.Base.{◌+◌, ◌*◌, ◌<◌, arith, ◌≤◌, ◌≡◌, ◌⊎◌, refl, false, none}
use goincus.Base.Int.{pos}
use goincus.Base.Text.{trim_space}
use goincus.Base.Result.{ok}
use goincus.Config.{valid_api_key}
use goincus.System.{System}
use goincus.Service.Hourly.{compute_cpu_percent}
use goincus.Service.Hourly.Percent.{compute_cpu_percent_share}
use goincus.Base.Split.{cut, split_on}
use goincus.Api.Auth.Headers.{
  client_headers, client_ip, extract_api_key, extract_api_key-client_headers,
}
use goincus.Api.Server.{Response, ApiState, handle, serve, get_instances, delete}
use goincus.Api.Server.Statuses.{IsProper, handle-IsProper}
use goincus.Api.Server.Runs.{serve_rejected}
use goincus.Tests.Servers.{small_system, small_world, small_config, all_work}

abbrev system : System
system = small_system all_work

abbrev state : ApiState system
state = record { world = small_world all_work; hits = λ ip. none }

wrong_key : valid_api_key small_config "guess" ≡ false
unfolding valid_api_key
wrong_key = refl

serve_rejected_example :
    ((serve system 1_000 1_000 "/api/v1/instances" "10.0.0.1" "guess"
        (λ hits. hits)
        (delete "web")
        state).1.world
      ≡ state.world)
    × (((serve system 1_000 1_000 "/api/v1/instances" "10.0.0.1" "guess"
            (λ hits. hits)
            (delete "web")
            state).0.status
          ≡ 401)
        ⊎ ((serve system 1_000 1_000 "/api/v1/instances" "10.0.0.1" "guess"
              (λ hits. hits)
              (delete "web")
              state).0.status
            ≡ 429))
serve_rejected_example =
    serve_rejected system 1_000 1_000 "/api/v1/instances" "10.0.0.1" "guess" (λ hits. hits)
      (delete "web") state refl wrong_key

handle-IsProper_example :
    (r : Response) × ((handle system get_instances (small_world all_work)).0 ≡ ok r) × IsProper r
handle-IsProper_example = handle-IsProper system get_instances (small_world all_work)

extract_api_key-client_headers_example :
    extract_api_key (client_headers (trim_space " key-1 ")) ≡ trim_space " key-1 "
extract_api_key-client_headers_example = extract_api_key-client_headers " key-1 "

-- Half of a guest's two cores, of which the counters are behind by an hour.
compute_cpu_percent_share_example :
    let p =
      compute_cpu_percent (pos 0) (pos 60_000_000_000) (pos 60_000_000_000) (pos 2_000_000_000) in
    (2 * 60_000_000_000 * 10_000_000_000_000 < (2 * p + 1) * (60_000_000_000 * 2_000_000_000))
    × (2 * p * (60_000_000_000 * 2_000_000_000)
        ≤ 2 * 60_000_000_000 * 10_000_000_000_000 + 60_000_000_000 * 2_000_000_000)
compute_cpu_percent_share_example =
    compute_cpu_percent_share 0 60_000_000_000 60_000_000_000 2_000_000_000 (omega arith)
      (omega arith) (omega arith) (omega arith)

-- The address comes from the connection, unless a header names another.
addresses :
    (client_ip (client_headers "key-1") "10.0.0.1:50412" ≡ "10.0.0.1")
    × ((client_ip (client_headers "key-1") "[fe80::1]:50412" ≡ "fe80::1")
        × ((client_ip (client_headers "key-1") "fe80::1" ≡ "fe80::1")
            × (client_ip
                  (record (client_headers "key-1") { x_forwarded_for = " 10.9.9.9, 10.0.0.1" })
                  "10.0.0.1:50412"
                ≡ "10.9.9.9")))
unfolding client_ip trim_space cut split_on
addresses = (refl, (refl, (refl, refl)))
