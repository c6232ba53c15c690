-- ===== src/Api/Server/Statuses.antt =====
-- The status of a response, and what it carries.
use goincus.Base.{
  ℕ, String, ◌≡◌, refl, ◌⊎◌, inl, inr, ◌<◌, ◌≤◌, Bool, true, false, Option, none, some, List, [],
  ◌∷◌, map, arith,
}
use goincus.Base.Result.{Result, Error, ok, err, not_found, invalid_input, conflict, failure}
use goincus.Models.{Instance, ResetPasswordRequest}
use goincus.System.{System, World, Call, pure}
use goincus.Service.Status.{resolve_instance, list_instances}
use goincus.Api.Server.{
  Request, Response, Body, error_text, instances, one_instance, no_body, health_body, resources,
  usage, metrics, host_stats, port, write_error, write_json, write_service_error, Decoded, decoded,
  empty, malformed, answer, with_instance, resolved, with_port, with_body, with_optional_body,
  handle, reply, list_reply, without_password, get_health, get_all_metrics, get_hoststats,
  get_instances, post_instance, get_instance, get_resources, delete, post_start, post_stop,
  post_restart, post_repair, get_usage, get_metrics, post_reset_password, post_port, patch_port,
  delete_port,
}

abbrev pub is_error : Body → Bool
is_error (error_text _) = true
is_error _ = false

-- A list shows no passwords.
abbrev pub Hidden : Body → Type 0
Hidden (instances list) = map (λ i. i.root_password) list ≡ map (λ i. "") list
Hidden _ = Unit

-- A status below 300 goes with a result, one from 400 on with the text of an error, and there is no other;
-- and the passwords of a list are hidden.
pub record IsProper (r : Response) : Type 0 where
  pub status_fits :
      ((r.status < 300) × (is_error r.body ≡ false)) ⊎ ((400 ≤ r.status) × (is_error r.body ≡ true))
  pub passwords_hidden : Hidden r.body

result-IsProper :
    (status : ℕ) (body : Body)
    → status < 300
    → is_error body ≡ false
    → Hidden body
    → IsProper (write_json status body)
result-IsProper status body small good hidden = record {
  status_fits = inl (small, good);
  passwords_hidden = hidden;
}

write_error-IsProper :
    (status : ℕ) (text : String) → 400 ≤ status → IsProper (write_error status text)
write_error-IsProper status text large = record {
  status_fits = inr (large, refl);
  passwords_hidden = tt;
}

write_service_error-IsProper : (e : Error) → IsProper (write_service_error e)
unfolding write_service_error
write_service_error-IsProper not_found = write_error-IsProper 404 _ (omega arith)
write_service_error-IsProper (invalid_input t) = write_error-IsProper 400 _ (omega arith)
write_service_error-IsProper (conflict t) = write_error-IsProper 409 _ (omega arith)
write_service_error-IsProper (failure t) = write_error-IsProper 500 _ (omega arith)

hidden_passwords :
    (list : List Instance)
    → map (λ i. i.root_password) (map without_password list)
      ≡ map (λ i. "") (map without_password list)
hidden_passwords [] = refl
hidden_passwords (i ∷ list) = cc (hidden_passwords list)

list_reply-IsProper : (r : Result (List Instance)) → IsProper (list_reply r)
list_reply-IsProper (ok list) =
    result-IsProper 200 (instances (map without_password list)) (omega arith) refl
      (hidden_passwords list)
list_reply-IsProper (err e) = write_error-IsProper 500 _ (omega arith)

module _ (S : System) where
  -- A handler that gives a proper response in every world.
  record Answering (m : Call S Response) : Type 0 where
    answers : (w : World S) → (r : Response) × ((m w).0 ≡ ok r) × IsProper r

  pure-Answering : (r : Response) → IsProper r → Answering (pure r)
  pure-Answering r p = record { answers = λ w. (r, refl, p) }

  reply-IsProper :
      {A : Type 0} (f : A → Response) (r : Result A)
      → ((a : A) → IsProper (f a))
      → IsProper (reply f r)
  reply-IsProper f (ok a) p = p a
  reply-IsProper f (err e) p = write_service_error-IsProper e

  answer-Answering :
      {A : Type 0} (m : Call S A) (f : A → Response)
      → ((a : A) → IsProper (f a))
      → Answering (answer S m f)
  unfolding answer
  answer-Answering m f p = record {
    answers = λ w. (reply f (m w).0, refl, reply-IsProper f (m w).0 p);
  }

  with_instance-Answering :
      (id : String) (k : Instance → Call S Response)
      → ((inst : Instance) → Answering (k inst))
      → Answering (with_instance S id k)
  unfolding with_instance resolved
  with_instance-Answering id k kk = record { answers = λ w. go (resolve_instance S id w).0 w }
    where
      go :
          (r : Result Instance) (w : World S)
          → (response : Response) × ((resolved S r k (resolve_instance S id w).1).0 ≡ ok response)
            × IsProper response
      go (ok inst) w = (kk inst).answers (resolve_instance S id w).1
      go (err e) w = (write_service_error e, refl, write_service_error-IsProper e)

  with_port-Answering :
      (text : String) (k : ℕ → Call S Response)
      → ((id : ℕ) → Answering (k id))
      → Answering (with_port S text k)
  unfolding with_port
  with_port-Answering text k kk = go (S.readings.parse_uuid text)
    where
      go :
          (o : Option ℕ)
          → Answering (elim o as (λ _. Call S Response) [
            | none ↦ pure (write_error 400 "invalid port id")
            | some id ↦ k id
          ])
      go none = pure-Answering _ (write_error-IsProper 400 _ (omega arith))
      go (some id) = kk id

  with_body-Answering :
      {A : Type 0} (body : Decoded A) (k : A → Call S Response)
      → ((a : A) → Answering (k a))
      → Answering (with_body S body k)
  unfolding with_body
  with_body-Answering (decoded a) k kk = kk a
  with_body-Answering empty k kk = pure-Answering _ (write_error-IsProper 400 _ (omega arith))
  with_body-Answering malformed k kk = pure-Answering _ (write_error-IsProper 400 _ (omega arith))

  with_optional_body-Answering :
      (body : Decoded ResetPasswordRequest) (k : ResetPasswordRequest → Call S Response)
      → ((a : ResetPasswordRequest) → Answering (k a))
      → Answering (with_optional_body S body k)
  unfolding with_optional_body
  with_optional_body-Answering (decoded a) k kk = kk a
  with_optional_body-Answering empty k kk = kk _
  with_optional_body-Answering malformed k kk =
      pure-Answering _ (write_error-IsProper 400 _ (omega arith))

  handle-Answering : (req : Request) → Answering (handle S req)
  unfolding handle
  handle-Answering get_health =
      answer-Answering _ _ λ a. result-IsProper 200 (health_body a) (omega arith) refl tt
  handle-Answering get_instances = record {
    answers =
        λ w. (list_reply (list_instances S w).0, refl, list_reply-IsProper (list_instances S w).0);
  }
  handle-Answering (post_instance body) =
      with_body-Answering body _
        λ req. answer-Answering _ _ λ a. result-IsProper 202 (one_instance a) (omega arith) refl tt
  handle-Answering (get_instance id) =
      with_instance-Answering id _
        λ inst. pure-Answering _ (result-IsProper 200 (one_instance inst) (omega arith) refl tt)
  handle-Answering (get_resources id) =
      with_instance-Answering id _
        λ inst. answer-Answering _ _ λ a. result-IsProper 200 (resources a) (omega arith) refl tt
  handle-Answering (get_usage id days) =
      with_instance-Answering id _
        λ inst. answer-Answering _ _ λ a. result-IsProper 200 (usage a) (omega arith) refl tt
  handle-Answering (get_all_metrics hours) =
      answer-Answering _ _ λ a. result-IsProper 200 (metrics a) (omega arith) refl tt
  handle-Answering get_hoststats =
      answer-Answering _ _ λ a. result-IsProper 200 (host_stats a) (omega arith) refl tt
  handle-Answering (get_metrics id hours) =
      with_instance-Answering id _
        λ inst. answer-Answering _ _ λ a. result-IsProper 200 (metrics a) (omega arith) refl tt
  handle-Answering (delete id) =
      with_instance-Answering id _
        λ inst. answer-Answering _ _ λ a. result-IsProper 204 no_body (omega arith) refl tt
  handle-Answering (post_start id) =
      with_instance-Answering id _
        λ inst. answer-Answering _ _ λ a. result-IsProper 200 (one_instance a) (omega arith) refl tt
  handle-Answering (post_stop id) =
      with_instance-Answering id _
        λ inst. answer-Answering _ _ λ a. result-IsProper 200 (one_instance a) (omega arith) refl tt
  handle-Answering (post_restart id) =
      with_instance-Answering id _
        λ inst. answer-Answering _ _ λ a. result-IsProper 200 (one_instance a) (omega arith) refl tt
  handle-Answering (post_repair id) =
      with_instance-Answering id _
        λ inst. answer-Answering _ _ λ a. result-IsProper 200 (one_instance a) (omega arith) refl tt
  handle-Answering (post_reset_password id body) = with_instance-Answering id _ λ inst.
      with_optional_body-Answering body _
        λ req. answer-Answering _ _ λ a. result-IsProper 200 (one_instance a) (omega arith) refl tt
  handle-Answering (post_port id body) = with_instance-Answering id _ λ inst.
      with_body-Answering body _
        λ req. answer-Answering _ _ λ a. result-IsProper 201 (port a) (omega arith) refl tt
  handle-Answering (patch_port id port_id body) = with_instance-Answering id _ λ inst.
      with_port-Answering port_id _ λ pid.
        with_body-Answering body _
          λ req. answer-Answering _ _ λ a. result-IsProper 200 (port a) (omega arith) refl tt
  handle-Answering (delete_port id port_id) = with_instance-Answering id _ λ inst.
      with_port-Answering port_id _
        λ pid. answer-Answering _ _ λ a. result-IsProper 204 no_body (omega arith) refl tt

  -- Every request is answered, whatever fails behind the handler: with a status below 300 and no error text,
  -- or with a status from 400 on and the text of an error; and a list of instances shows no password.
  pub handle-IsProper :
      (req : Request) (w : World S) → (r : Response) × ((handle S req w).0 ≡ ok r) × IsProper r
  handle-IsProper req w = (handle-Answering req).answers w
