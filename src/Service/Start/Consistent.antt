-- ===== src/Service/Start/Consistent.antt =====
-- The operations of Service/Start keep the tables consistent.
use goincus.Base.{ℕ, String, List, [], ◌∷◌}
use goincus.Base.Int.{pos}
use goincus.Base.Result.{Result, ok, err}
use goincus.Models.{Instance, PortMapping, ResetPasswordRequest}
use goincus.Store.Consistent.Mappings.{add_port-Keeps}
use goincus.Store.Consistent.Instances.{update_root_password-Keeps}
use goincus.Store.Calls.Consistent.{get_instance-Keeping as row-Keeping}
use goincus.System.{System, attempt, ◌>>◌}
use goincus.Ports.{reserve}
use goincus.Ports.Keeping.{
  allocate_block-Keeping, release_block-Keeping, first_port-Keeping, reserve-Keeping,
}
use goincus.Service.Keeping.{Keeping, keeping, bind-Keeping, then-Keeping, attempt-Keeping}
use goincus.Service.Status.Consistent.{write_status-Keeping, get_instance-Keeping}
use goincus.Service.Provision.Consistent.{
  attach_port_block-Keeping, bootstrap_ssh-Keeping, list_ports-Keeps,
}
use goincus.Service.Start.{
  after_attach, new_block, after_persist, after_proxy, after_reserve, fill_ports, fill_block,
  ensure_port_block, start_instance, new_password, reset_root_password,
}

module _ (S : System) where
  after_attach-Keeping :
      (block : List ℕ) (r : Result (Unit {0})) → Keeping S (after_attach S block r)
  unfolding after_attach
  after_attach-Keeping block (ok _) = first_port-Keeping S block
  after_attach-Keeping block (err e) = search (keeping, release_block-Keeping)

  new_block-Keeping : (inst : Instance) → Keeping S (new_block S inst)
  unfolding new_block
  new_block-Keeping inst =
      search (keeping, allocate_block-Keeping, attach_port_block-Keeping, after_attach-Keeping)
        depth 12

  after_persist-Keeping :
      (inst : Instance) (port : ℕ) (r : Result (Unit {0})) → Keeping S (after_persist S inst port r)
  unfolding after_persist
  after_persist-Keeping inst port (ok _) = search keeping
  after_persist-Keeping inst port (err e) = record { keeps = λ w c. c }

  after_proxy-Keeping :
      (inst : Instance) (port : ℕ) (r : Result (Unit {0})) → Keeping S (after_proxy S inst port r)
  unfolding after_proxy
  after_proxy-Keeping inst port (ok _) =
      search (keeping, add_port-Keeps, after_persist-Keeping) depth 12
  after_proxy-Keeping inst port (err e) = record { keeps = λ w c. c }

  after_reserve-Keeping :
      (inst : Instance) (port : ℕ) (r : Result (Unit {0})) → Keeping S (after_reserve S inst port r)
  unfolding after_reserve
  after_reserve-Keeping inst port (ok _) = search (keeping, after_proxy-Keeping)
  after_reserve-Keeping inst port (err e) = search keeping

  fill_ports-Keeping : (inst : Instance) (need : List ℕ) → Keeping S (fill_ports S inst need)
  unfolding fill_ports
  fill_ports-Keeping inst [] = search keeping
  fill_ports-Keeping inst (port ∷ need) =
      bind-Keeping S (attempt (reserve S (pos port)))
        (λ r. after_reserve S inst port r >> fill_ports S inst need)
        (attempt-Keeping S (reserve S (pos port)) (reserve-Keeping S (pos port)))
        λ r.
          then-Keeping S (after_reserve S inst port r) (fill_ports S inst need)
            (after_reserve-Keeping inst port r) (fill_ports-Keeping inst need)

  fill_block-Keeping :
      (inst : Instance) (existing : List PortMapping) → Keeping S (fill_block S inst existing)
  unfolding fill_block
  fill_block-Keeping inst [] = new_block-Keeping inst
  fill_block-Keeping inst (p ∷ existing) = search (keeping, fill_ports-Keeping) depth 12

  ensure_port_block-Keeping : (inst : Instance) → Keeping S (ensure_port_block S inst)
  unfolding ensure_port_block
  ensure_port_block-Keeping inst = search (keeping, list_ports-Keeps, fill_block-Keeping) depth 12

  pub start_instance-Keeping : (id : ℕ) → Keeping S (start_instance S id)
  unfolding start_instance
  start_instance-Keeping id =
      search
        (
          keeping, row-Keeping, ensure_port_block-Keeping, bootstrap_ssh-Keeping,
          write_status-Keeping, get_instance-Keeping,
        )
        depth 24

  new_password-Keeping : (wanted : String) → Keeping S (new_password S wanted)
  unfolding new_password
  new_password-Keeping wanted = search keeping

  pub reset_root_password-Keeping :
      (id : ℕ) (req : ResetPasswordRequest) → Keeping S (reset_root_password S id req)
  unfolding reset_root_password
  reset_root_password-Keeping id req =
      search
        (
          keeping, get_instance-Keeping, new_password-Keeping, update_root_password-Keeps,
          write_status-Keeping,
        )
        depth 24
