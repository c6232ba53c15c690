-- ===== src/Service/Provision/Consistent.antt =====
-- `provision` and what it shares with `StartInstance` keep the tables consistent.
use goincus.Base.{ℕ, ◌<>◌, List, [], ◌∷◌}
use goincus.Base.Decimal.{decimal}
use goincus.Base.Result.{Result, Error, ok, err}
use goincus.Models.{Instance, PortMapping}
use goincus.Store.Ports.{list_ports, add_port}
use goincus.Store.Consistent.{Keeps}
use goincus.Store.Consistent.Instances.{update_instance_status-Keeps, update_root_password-Keeps}
use goincus.Store.Consistent.Mappings.{add_port-Keeps}
use goincus.System.{System, query, within, pure}
use goincus.Ports.Keeping.{allocate_block-Keeping, release_block-Keeping, first_port-Keeping}
use goincus.Service.Keeping.{
  Keeping, keeping, bind-Keeping, then-Keeping, pure-Keeping, within-Keeping, query-Keeping,
}
use goincus.Service.Status.Consistent.{write_status-Keeping}
use goincus.Service.Provision.{
  mapping, fail_instance, pending_rows, persist_rows, attach_missing, attach_port_block,
  new_root_password, root_password_of, harden, bootstrap_ssh, release_all, release_missing,
  release_unused, set_up_guest, finish_provision, after_set_up, after_create, build, after_allocate,
  provision,
}

module _ (S : System) where
  fail_instance-Keeping : (id : ℕ) (cause : Error) → Keeping S (fail_instance S id cause)
  unfolding fail_instance
  fail_instance-Keeping id cause = search write_status-Keeping

  pending_rows-Keeping :
      (id created_at : ℕ) (ports : List ℕ) → Keeping S (pending_rows S id created_at ports)
  unfolding pending_rows
  pending_rows-Keeping id created_at [] = search keeping
  pending_rows-Keeping id created_at (p ∷ ports) = record {
    keeps = λ w c.
        (bind-Keeping S (pending_rows S id created_at ports)
            (λ rest. pure (mapping (S.readings.uuid_at w.ticks) id p created_at ∷ rest))
            (pending_rows-Keeping id created_at ports) λ rest. pure-Keeping S _).keeps
          _ c;
  }

  persist_rows-Keeping : (rows : List PortMapping) → Keeping S (persist_rows S rows)
  unfolding persist_rows
  persist_rows-Keeping [] = search keeping
  persist_rows-Keeping (p ∷ rows) =
      let add = query S (add_port p) in
      let context = "persist port " <> decimal p.host_port in
      then-Keeping S (within context add) (persist_rows S rows)
        (within-Keeping S context add (query-Keeping S (add_port p) (add_port-Keeps p)))
        (persist_rows-Keeping rows)

  attach_missing-Keeping :
      (inst : Instance) (ports : List ℕ) → Keeping S (attach_missing S inst ports)
  unfolding attach_missing
  attach_missing-Keeping inst [] = search keeping
  attach_missing-Keeping inst (p ∷ ports) =
      search (keeping, pending_rows-Keeping, persist_rows-Keeping) depth 12

  pub list_ports-Keeps : (id : ℕ) → Keeps (list_ports id)
  list_ports-Keeps id now d c = c

  pub attach_port_block-Keeping :
      (inst : Instance) (block : List ℕ) → Keeping S (attach_port_block S inst block)
  unfolding attach_port_block
  attach_port_block-Keeping inst block =
      search (keeping, list_ports-Keeps, attach_missing-Keeping) depth 12

  new_root_password-Keeping : (inst : Instance) → Keeping S (new_root_password S inst)
  unfolding new_root_password
  new_root_password-Keeping inst = search (keeping, update_root_password-Keeps) depth 12

  root_password_of-Keeping : (inst : Instance) → Keeping S (root_password_of S inst)
  unfolding root_password_of
  root_password_of-Keeping inst = search (keeping, new_root_password-Keeping)

  harden-Keeping : Keeping S (harden S)
  unfolding harden
  harden-Keeping = search keeping

  pub bootstrap_ssh-Keeping : (inst : Instance) (port : ℕ) → Keeping S (bootstrap_ssh S inst port)
  unfolding bootstrap_ssh
  bootstrap_ssh-Keeping inst port =
      search (keeping, root_password_of-Keeping, harden-Keeping) depth 16

  release_all-Keeping : (ports : List ℕ) → Keeping S (release_all S ports)
  unfolding release_all
  release_all-Keeping [] = search keeping
  release_all-Keeping (p ∷ ports) = record { keeps = λ w c. (release_all-Keeping ports).keeps _ c }

  release_missing-Keeping :
      (block : List ℕ) (r : Result (List PortMapping)) → Keeping S (release_missing S block r)
  unfolding release_missing
  release_missing-Keeping block (err _) = release_block-Keeping S block
  release_missing-Keeping block (ok existing) = search release_all-Keeping

  release_unused-Keeping : (id : ℕ) (block : List ℕ) → Keeping S (release_unused S id block)
  unfolding release_unused
  release_unused-Keeping id block =
      search (keeping, list_ports-Keeps, release_missing-Keeping) depth 12

  set_up_guest-Keeping :
      (inst : Instance) (block : List ℕ) (port : ℕ) → Keeping S (set_up_guest S inst block port)
  unfolding set_up_guest
  set_up_guest-Keeping inst block port =
      search (keeping, bootstrap_ssh-Keeping, attach_port_block-Keeping) depth 16

  after_set_up-Keeping :
      (inst : Instance) (block : List ℕ) (r : Result (Unit {0}))
      → Keeping S (after_set_up S inst block r)
  unfolding after_set_up finish_provision
  after_set_up-Keeping inst block (ok _) = search write_status-Keeping
  after_set_up-Keeping inst block (err e) =
      search (keeping, release_unused-Keeping, fail_instance-Keeping) depth 12

  after_create-Keeping :
      (inst : Instance) (block : List ℕ) (port : ℕ) (r : Result (Unit {0}))
      → Keeping S (after_create S inst block port r)
  unfolding after_create
  after_create-Keeping inst block port (ok _) =
      search (keeping, set_up_guest-Keeping, after_set_up-Keeping) depth 12
  after_create-Keeping inst block port (err e) =
      search (keeping, release_block-Keeping, fail_instance-Keeping) depth 12

  build-Keeping : (inst : Instance) (block : List ℕ) → Keeping S (build S inst block)
  unfolding build
  build-Keeping inst block = search (keeping, first_port-Keeping, after_create-Keeping) depth 12

  after_allocate-Keeping :
      (inst : Instance) (r : Result (List ℕ)) → Keeping S (after_allocate S inst r)
  unfolding after_allocate
  after_allocate-Keeping inst (ok block) = build-Keeping inst block
  after_allocate-Keeping inst (err e) = search fail_instance-Keeping

  pub provision-Keeping : (inst : Instance) → Keeping S (provision S inst)
  unfolding provision
  provision-Keeping inst =
      search (keeping, update_instance_status-Keeps, allocate_block-Keeping, after_allocate-Keeping)
        depth 12
