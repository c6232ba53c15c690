-- ===== src/Api/Server.antt =====
-- internal/api/server.go: the handlers. A request is given by its route, with the parameters as the router
-- and the JSON decoder hand them over; the matching of paths and the encoding of a body are libraries' work.
pub mod Statuses
pub mod Runs
use goincus.Base.{
  ℕ, String, Bool, true, false, List, [], ◌∷◌, map, Option, none, some, ◌==◌, String-Eq,
  if◌then◌else◌,
}
use goincus.Base.Int.{ℤ, pos}
use goincus.Base.Split.{atoi}
use goincus.Base.Result.{
  Result, Error, ok, err, not_found, invalid_input, conflict, failure, message,
}
use goincus.Models.{
  Instance, PortMapping, HealthResponse, CreateInstanceRequest, AddPortRequest, UpdatePortRequest,
  ResetPasswordRequest,
}
use goincus.System.{System, World, Call, pure, ◌>>=◌, attempt}
use goincus.Api.Auth.{Hits, Outcome, served, too_many, unauthorized, authenticate}
use goincus.Service.Create.{create}
use goincus.Service.Start.{start_instance, reset_root_password}
use goincus.Service.Status.{
  list_instances, resolve_instance, stop_instance, restart_instance, delete_instance, health,
}
use goincus.Service.Mappings.{add_port_mapping, remove_port_mapping, update_port_mapping}
use goincus.Service.Usage.{UsageChart, get_usage_chart}
use goincus.Service.Hourly.{MetricsChart, get_hourly_metrics}
use goincus.Service.Resources.{InstanceResources, HostStats, get_instance_resources, get_host_stats}

pub data Body : Type 0 where
  no_body : Body
  health_body : HealthResponse → Body
  instances : List Instance → Body
  one_instance : Instance → Body
  resources : InstanceResources → Body
  usage : UsageChart → Body
  metrics : MetricsChart → Body
  host_stats : HostStats → Body
  port : PortMapping → Body
  error_text : String → Body

pub record Response : Type 0 where
  pub status : ℕ
  pub body : Body

-- What the JSON decoder makes of a request's body; an empty body is `io.EOF`.
pub data Decoded (A : Type 0) : Type 0 where
  decoded : A → Decoded A
  empty malformed : Decoded A

-- The routes of `Router`; `id` is the text in the path, and a query parameter that is missing is empty.
pub data Request : Type 0 where
  get_health : Request
  get_all_metrics : (hours : String) → Request
  get_hoststats : Request
  get_instances : Request
  post_instance : Decoded CreateInstanceRequest → Request
  get_instance get_resources delete post_start post_stop post_restart post_repair :
      (id : String) → Request
  get_usage get_metrics : (id number : String) → Request
  post_reset_password : (id : String) → Decoded ResetPasswordRequest → Request
  post_port : (id : String) → Decoded AddPortRequest → Request
  patch_port : (id port_id : String) → Decoded UpdatePortRequest → Request
  delete_port : (id port_id : String) → Request

-- `writeJSON` and `writeError`
abbrev pub write_json : ℕ → Body → Response
write_json status body = record { status = status; body = body }

abbrev pub write_error : ℕ → String → Response
write_error status text = record { status = status; body = error_text text }

-- `writeServiceError`
unfoldable pub write_service_error : Error → Response
write_service_error not_found = write_error 404 (message not_found)
write_service_error (invalid_input t) = write_error 400 (message (invalid_input t))
write_service_error (conflict t) = write_error 409 (message (conflict t))
write_service_error (failure t) = write_error 500 (message (failure t))

-- A number in the query; what is not one is passed over.
unfoldable pub query_number : String → ℤ → ℤ
query_number text other =
    if text == "" then other else elim (atoi text) [ none ↦ other | some n ↦ n ]

-- `handleListInstances` shows no passwords.
abbrev pub without_password : Instance → Instance
without_password inst = record inst { root_password = "" }

abbrev no_json : Response
no_json = write_error 400 "invalid JSON body"

abbrev pub reply : {A : Type 0} → (A → Response) → Result A → Response
reply f (ok a) = f a
reply f (err e) = write_service_error e

abbrev pub list_reply : Result (List Instance) → Response
list_reply (ok list) = write_json 200 (instances (map without_password list))
list_reply (err e) = write_error 500 (message e)

module _ (S : System) where
  -- The end of a handler: the result of its last call as a response.
  unfoldable pub answer : {A : Type 0} → Call S A → (A → Response) → Call S Response
  unfolding write_service_error
  answer m f = do r ← attempt m; pure (reply f r)

  resolved : Result Instance → (Instance → Call S Response) → Call S Response
  unfolding write_service_error
  resolved (ok inst) k = k inst
  resolved (err e) k = pure (write_service_error e)

  -- The start of the handlers of one instance.
  unfoldable pub with_instance : String → (Instance → Call S Response) → Call S Response
  unfolding resolved
  with_instance id k = do r ← attempt (resolve_instance S id); resolved r k

  -- `uuid.Parse` of the port's identifier.
  with_port : String → (ℕ → Call S Response) → Call S Response
  with_port text k = elim (S.readings.parse_uuid text) [
    | none ↦ pure (write_error 400 "invalid port id")
    | some id ↦ k id
  ]

  with_body : {A : Type 0} → Decoded A → (A → Call S Response) → Call S Response
  with_body (decoded a) k = k a
  with_body empty k = pure no_json
  with_body malformed k = pure no_json

  -- `handleResetPassword` takes an empty body for a request without a password.
  with_optional_body :
      Decoded ResetPasswordRequest → (ResetPasswordRequest → Call S Response) → Call S Response
  with_optional_body (decoded a) k = k a
  with_optional_body empty k = k (record { password = "" })
  with_optional_body malformed k = pure no_json

  -- The handlers of `Router`. The background job that `CreateInstance` starts is not part of its request.
  unfoldable pub handle : Request → Call S Response
  unfolding answer with_instance with_port with_body with_optional_body query_number
  handle get_health = answer (health S) (λ h. write_json 200 (health_body h))
  handle get_instances = do r ← attempt (list_instances S); pure (list_reply r)
  handle (post_instance body) =
      with_body body λ req. answer (create S req) (λ inst. write_json 202 (one_instance inst))
  handle (get_instance id) = with_instance id λ inst. pure (write_json 200 (one_instance inst))
  handle (get_resources id) =
      with_instance id
        λ inst. answer (get_instance_resources S inst.id) (λ out. write_json 200 (resources out))
  handle (get_usage id days) = with_instance id λ inst.
      answer (get_usage_chart S inst.id (query_number days (pos 30)))
        (λ out. write_json 200 (usage out))
  handle (get_all_metrics hours) =
      answer (get_hourly_metrics S none (query_number hours (pos 24)))
        (λ out. write_json 200 (metrics out))
  handle get_hoststats = answer (get_host_stats S) (λ out. write_json 200 (host_stats out))
  handle (get_metrics id hours) = with_instance id λ inst.
      answer (get_hourly_metrics S (some inst.id) (query_number hours (pos 24)))
        (λ out. write_json 200 (metrics out))
  handle (delete id) =
      with_instance id λ inst. answer (delete_instance S inst.id) (λ _. write_json 204 no_body)
  handle (post_start id) =
      with_instance id
        λ inst. answer (start_instance S inst.id) (λ out. write_json 200 (one_instance out))
  handle (post_stop id) =
      with_instance id
        λ inst. answer (stop_instance S inst.id) (λ out. write_json 200 (one_instance out))
  handle (post_restart id) =
      with_instance id
        λ inst. answer (restart_instance S inst.id) (λ out. write_json 200 (one_instance out))
  handle (post_repair id) =
      with_instance id
        λ inst. answer (start_instance S inst.id) (λ out. write_json 200 (one_instance out))
  handle (post_reset_password id body) = with_instance id λ inst.
      with_optional_body body
        λ req. answer (reset_root_password S inst.id req) (λ out. write_json 200 (one_instance out))
  handle (post_port id body) = with_instance id λ inst.
      with_body body λ req. answer (add_port_mapping S inst.id req) (λ pm. write_json 201 (port pm))
  handle (patch_port id port_id body) = with_instance id λ inst. with_port port_id λ pid.
      with_body body
        λ req. answer (update_port_mapping S inst.id pid req) (λ pm. write_json 200 (port pm))
  handle (delete_port id port_id) = with_instance id λ inst.
      with_port port_id
        λ pid. answer (remove_port_mapping S inst.id pid) (λ _. write_json 204 no_body)

-- What the server keeps: the service's world, and the failed attempts of each client.
pub record ApiState (S : System) : Type 0 where
  pub world : World S
  pub hits : Hits

module _ (S : System) where
  -- What becomes of a request after `APIKeyAuth`; `next.ServeHTTP` is the handler.
  unfoldable pub respond : Request → Outcome → Hits → World S → Response × ApiState S
  unfolding handle
  respond req served hits w =
      let (r, w') = handle S req w in
      (
        elim r as (λ _. Response) [ ok response ↦ response | err e ↦ write_service_error e ],
        record { world = w'; hits = hits },
      )
  respond req too_many hits w = (
    write_error 429 "rate limit exceeded: too many failed auth attempts",
    record { world = w; hits = hits },
  )
  respond req unauthorized hits w = (
    write_error 401 "unauthorized: provide Authorization: Bearer <api_key> or X-API-Key",
    record { world = w; hits = hits },
  )

  -- `Router` with its middleware, of a request on a path from an address with a key. `between` is what other
  -- requests do to the limiter while this one is checked.
  unfoldable pub serve :
      (at_check at_fail : ℕ)
      → (path ip key : String) → (between : Hits → Hits) → Request
      → ApiState S
      → Response × ApiState S
  unfolding respond
  serve at_check at_fail path ip key between req s =
      let (outcome, hits) = authenticate S.cfg at_check at_fail path ip key between s.hits in
      respond req outcome hits s.world
