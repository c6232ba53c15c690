-- ===== src/Service/Create/Consistent.antt =====
-- `CreateInstance` keeps the tables consistent.
use goincus.Base.Result.{Result, Error, ok, err}
use goincus.Models.{Instance, CreateInstanceRequest}
use goincus.Store.Consistent.Instances.{create_instance-Keeps}
use goincus.Store.Calls.Consistent.{get_instance_by_name-Keeping}
use goincus.System.{System}
use goincus.Service.Keeping.{Keeping, keeping}
use goincus.Service.Create.{check_name, create}

module _ (S : System) where
  check_name-Keeping : (r : Result Instance) → Keeping S (check_name S r)
  unfolding check_name
  check_name-Keeping (ok _) = search keeping
  check_name-Keeping (err Error.not_found) = search keeping
  check_name-Keeping (err (Error.invalid_input t)) = search keeping
  check_name-Keeping (err (Error.conflict t)) = search keeping
  check_name-Keeping (err (Error.failure t)) = search keeping

  pub create-Keeping : (req : CreateInstanceRequest) → Keeping S (create S req)
  unfolding create
  create-Keeping req =
      search (keeping, check_name-Keeping, get_instance_by_name-Keeping, create_instance-Keeps)
        depth 30
