-- ===== src/Service/Mappings/Added.antt =====
-- What `AddPortMapping` (internal/service/service.go) promises.
use goincus.Base.{
  ℕ, suc, ◌≡◌, refl, ap, ◌∙◌, String, Bool, true, ◌&&◌, [], ◌∷◌, ◌++◌, ◌==◌, ℕ-Eq, String-Eq, any,
  arith,
}
use text.Mathlib.TextPositions.{eq_refl}
use goincus.Store.Consistent.Rows.{any-append}
use goincus.Base.Result.{Result, ok, err}
use goincus.Models.{Instance, PortMapping, AddPortRequest}
use goincus.Store.Tables.{Db}
use goincus.Store.Ports.{add_port, valid_mapping}
use goincus.System.{System, World, Call, query, ProxySpec}
use goincus.Service.Ends.{Ends, bind-Ends, then-Ends, query-Ends}
use goincus.Service.Mappings.{row_of, after_row, after_device, map_port, add_port_mapping}

abbrev pub same_row : PortMapping → PortMapping → Bool
same_row p q =
    q.id == p.id
    && (q.host_port == p.host_port
        && (q.internal_port == p.internal_port && q.protocol == p.protocol))

-- The row is in the table and passes the table's checks.
abbrev pub is_stored : PortMapping → Db → Bool
is_stored p d = any (same_row p) d.port_mappings && valid_mapping p

added :
    (p : PortMapping) (now : ℕ) (d : Db)
    → (add_port p now d).0 ≡ ok tt
    → (valid_mapping p ≡ true) × ((add_port p now d).1.port_mappings ≡ d.port_mappings ++ p ∷ [])
unfolding add_port
added p now d h = (ground arith, ground arith)

add_port_ok :
    (p : PortMapping) (now : ℕ) (d : Db) (a : Unit {0})
    → (add_port p now d).0 ≡ ok a
    → is_stored p (add_port p now d).1 ≡ true
add_port_ok p now d a h =
    let (valid, rows) = added p now d h in
    ap (λ ps. any (same_row p) ps && valid_mapping p) rows
    ∙ ground (arith, any-append (same_row p) d.port_mappings p, eq_refl p.protocol, valid)

module _ (S : System) where
  abbrev Stored : Call S PortMapping → Type 0
  Stored m = Ends S (λ (p : PortMapping) (d : Db). is_stored p d ≡ true) m

  after_row_ok :
      (inst : Instance) (pm : PortMapping) (r : Result (Unit {0})) (w : World S)
      → (r ≡ ok tt → is_stored pm w.db ≡ true)
      → (a : PortMapping) → (after_row S inst pm r w).0 ≡ ok a
      → is_stored a (after_row S inst pm r w).1.db ≡ true
  unfolding after_row
  after_row_ok inst pm (ok tt) w stored a h = let e : pm ≡ a = cc h in rw (← e) (stored refl)
  after_row_ok inst pm (err e) w stored a h = absurd (cc h)

  after_device-Ends :
      (inst : Instance) (proto : String) (s : ProxySpec) (r : Result (Unit {0}))
      → Stored (after_device S inst proto s r)
  unfolding after_device
  after_device-Ends inst proto s (err e) = record { ends = λ w a h. absurd (cc h) }
  after_device-Ends inst proto s (ok _) = record {
    ends = λ w a h.
        let pm =
          row_of (S.readings.uuid_at w.ticks) inst.id proto s (S.readings.time_at (suc w.ticks)) in
        let w' : World S = record w { ticks = suc (suc w.ticks) } in
        let m = query S (add_port pm) in
        after_row_ok inst pm (m w').0 (m w').1
          ((query-Ends S (λ _ d. is_stored pm d ≡ true) (add_port pm) (add_port_ok pm)).ends w' tt)
          a h;
  }

  map_port-Ends :
      (inst : Instance) (proto : String) (internal host : ℕ)
      → Stored (map_port S inst proto internal host)
  unfolding map_port
  map_port-Ends inst proto internal host = search (bind-Ends, then-Ends, after_device-Ends) depth 12

  -- A mapping that `AddPortMapping` returns is in the table, with its host port, its guest port and its
  -- protocol, which is tcp or udp; both ports lie between 1 and 65535.
  pub add_port_mapping-is_stored :
      (id : ℕ) (req : AddPortRequest) (w : World S) (p : PortMapping)
      → (add_port_mapping S id req w).0 ≡ ok p
      → is_stored p (add_port_mapping S id req w).1.db ≡ true
  unfolding add_port_mapping
  add_port_mapping-is_stored id req w p h = stores.ends w p h
    where
      stores : Stored (add_port_mapping S id req)
      stores = search (bind-Ends, then-Ends, map_port-Ends) depth 16
