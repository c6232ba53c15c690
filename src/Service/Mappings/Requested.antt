-- ===== src/Service/Mappings/Requested.antt =====
-- `AddPortMapping` gives what was asked for.
use goincus.Base.{
  ℕ, zero, suc, ◌≤◌, ◌≡◌, refl, sym, ap, ◌∙◌, String, Bool, true, false, ◌||◌, ◌==◌, String-Eq, [],
  ◌∷◌, ◌⊎◌, inl, inr, if◌then◌else◌, arith,
}
use mathlib.Core.Path.{subst}
use goincus.Base.Int.{ℤ, pos, negsuc, pos_part, leb_ℤ, ltb_ℤ}
use goincus.Base.Text.{to_lower}
use goincus.Base.Result.{Result, Error, ok, err}
use goincus.Models.{Instance, PortMapping, AddPortRequest}
use goincus.System.{System, World, Call, ProxySpec, raise_if, ◌>>=◌, ◌>>◌, attempt, bind_succeeds}
use goincus.Redis.Laws.{RedisLaws}
use goincus.Ports.{allocate, allocate_block, first_port, reserve}
use goincus.Ports.Mark.{block_of}
use goincus.Ports.Allocate.{allocate_block_ok}
use goincus.Ports.Reserve.{reserve_ok}
use goincus.Service.Mappings.{
  row_of, after_row, after_device, map_port, add_port_mapping, choose_host_port, prefer_same,
  reserve_wanted,
}

module _ (S : System) where
  -- What holds of the result of a call that succeeds.
  pub record Gives {A : Type 0} (Q : A → Type 0) (m : Call S A) : Type 0 where
    pub gives : (w : World S) (a : A) → (m w).0 ≡ ok a → Q a

  bind-Gives :
      {A B : Type 0} (R : A → Type 0) (Q : B → Type 0) (m : Call S A) (f : A → Call S B)
      → Gives R m
      → ((a : A) → R a → Gives Q (f a))
      → Gives Q (m >>= f)
  bind-Gives R Q m f gm gf = record {
    gives = λ w b h.
        let (a, (first, whole)) = bind_succeeds m f w b h in
        (gf a (gm.gives w a first)).gives (m w).1 b (subst (λ r. r.0 ≡ ok b) whole h);
  }

  last-Gives :
      {A B : Type 0} (Q : B → Type 0) (m : Call S A) (f : A → Call S B)
      → ((a : A) → Gives Q (f a))
      → Gives Q (m >>= f)
  last-Gives Q m f gf =
      bind-Gives (λ _. Unit {0}) Q m f (record { gives = λ w a h. tt }) λ a _. gf a

  guard-Gives :
      {B : Type 0} (Q : B → Type 0) (b : Bool) (e : Error) (k : Call S B)
      → (b ≡ false → Gives Q k)
      → Gives Q (raise_if b e >> k)
  guard-Gives Q true e k g = record { gives = λ w a h. absurd (cc h) }
  guard-Gives Q false e k g = g refl

  -- A row with these ports and this protocol.
  abbrev HasFields : (proto : String) → (internal host : ℕ) → PortMapping → Type 0
  HasFields proto internal host p =
      (p.protocol ≡ proto) × ((p.internal_port ≡ internal) × (p.host_port ≡ host))

  after_row-HasFields :
      (inst : Instance) (pm : PortMapping) (r : Result (Unit {0}))
      → Gives (λ a. a ≡ pm) (after_row S inst pm r)
  unfolding after_row
  after_row-HasFields inst pm (ok tt) = record { gives = λ w a h. cc h }
  after_row-HasFields inst pm (err e) = record { gives = λ w a h. absurd (cc h) }

  after_device-HasFields :
      (inst : Instance) (proto : String) (s : ProxySpec) (r : Result (Unit {0}))
      → Gives (HasFields proto s.internal_port s.host_port) (after_device S inst proto s r)
  unfolding after_device
  after_device-HasFields inst proto s (err e) = record { gives = λ w a h. absurd (cc h) }
  after_device-HasFields inst proto s (ok _) = record {
    gives = λ w a h.
        let same =
          (after_row-HasFields inst
              (row_of (S.readings.uuid_at w.ticks) inst.id proto s
                (S.readings.time_at (suc w.ticks)))
              _).gives
            _ a h in
        (ap (λ p. p.protocol) same, (ap (λ p. p.internal_port) same, ap (λ p. p.host_port) same));
  }

  map_port-HasFields :
      (inst : Instance) (proto : String) (internal host : ℕ)
      → Gives (HasFields proto internal host) (map_port S inst proto internal host)
  unfolding map_port
  map_port-HasFields inst proto internal host = search (last-Gives, after_device-HasFields) depth 12

module _ (S : System) (L : RedisLaws S.redis) where
  open S.cfg.ports use {host_range_start, host_range_end}

  -- A host port of the range, and the one that was wanted, if one was.
  abbrev IsGranted : ℤ → ℕ → Type 0
  IsGranted wanted p =
      (host_range_start ≤ p) × ((p ≤ host_range_end) × ((wanted ≡ pos 0) ⊎ (wanted ≡ pos p)))

  reserve-InRange :
      (port : ℤ) (w : World S)
      → (reserve S port w).0 ≡ ok tt
      → (port ≡ pos (pos_part port))
        × ((host_range_start ≤ pos_part port) × (pos_part port ≤ host_range_end))
  reserve-InRange port w h =
      let (p, same, low, high, free, marks) = reserve_ok S L port w h in rw same (refl, (low, high))

  allocate-InRange :
      (w : World S) (p : ℕ)
      → (allocate S w).0 ≡ ok p
      → (host_range_start ≤ p) × (p ≤ host_range_end)
  unfolding allocate
  allocate-InRange w p h =
      let (b, (allocated, whole)) = bind_succeeds (allocate_block S (pos 1)) (first_port S) w p h in
      let (n, start, one, low, block, marks) = allocate_block_ok S L (pos 1) w b allocated in
      let single : b ≡ start ∷ [] = block ∙ ap (λ k. block_of k start) (sym (ap pos_part one)) in
      let first : (first_port S (start ∷ []) (allocate_block S (pos 1) w).1).0 ≡ ok p =
        subst (λ x. (first_port S x (allocate_block S (pos 1) w).1).0 ≡ ok p) single
          (subst (λ r. r.0 ≡ ok p) whole h) in
      let here : start ≡ p = cc first in
      let size : 1 ≡ n = ap pos_part one in
      let below = low.below in let above = low.above in (omega arith, omega arith)

  -- What an attempt to reserve a port shows.
  abbrev Reserved : ℤ → Result (Unit {0}) → Type 0
  Reserved port r =
      r ≡ ok tt
      → (port ≡ pos (pos_part port))
        × ((host_range_start ≤ pos_part port) × (pos_part port ≤ host_range_end))

  reserve-Reserved : (port : ℤ) → Gives S (Reserved port) (attempt (reserve S port))
  reserve-Reserved port = record {
    gives = λ w r h done.
        let same : (reserve S port w).0 ≡ r = cc h in reserve-InRange port w (same ∙ done);
  }

  prefer_same-IsGranted :
      (internal : ℕ) (r : Result (Unit {0}))
      → Reserved (pos internal) r
      → Gives S (IsGranted (pos 0)) (prefer_same S internal r)
  unfolding prefer_same
  prefer_same-IsGranted internal (ok tt) reserved = record {
    gives = λ w p h.
        let (known, (low, high)) = reserved refl in
        let same : internal ≡ p = cc h in (rw (← same) low, (rw (← same) high, inl refl));
  }
  prefer_same-IsGranted internal (err e) reserved = record {
    gives = λ w p h. let (low, high) = allocate-InRange w p h in (low, (high, inl refl));
  }

  reserve_wanted-IsGranted :
      (wanted : ℤ) (r : Result (Unit {0}))
      → Reserved wanted r
      → Gives S (IsGranted wanted) (reserve_wanted S wanted r)
  unfolding reserve_wanted
  reserve_wanted-IsGranted wanted (ok tt) reserved = record {
    gives = λ w p h.
        let (known, (low, high)) = reserved refl in
        let same : pos_part wanted ≡ p = cc h in
        (rw (← same) low, (rw (← same) high, inr (known ∙ ap pos same)));
  }
  reserve_wanted-IsGranted wanted (err e) reserved = record { gives = λ w p h. absurd (cc h) }

  choose_host_port-IsGranted :
      (wanted : ℤ) (internal : ℕ) → Gives S (IsGranted wanted) (choose_host_port S wanted internal)
  unfolding choose_host_port
  choose_host_port-IsGranted (pos zero) internal =
      bind-Gives S (Reserved (pos internal)) (IsGranted (pos 0))
        (attempt (reserve S (pos internal))) (prefer_same S internal)
        (reserve-Reserved (pos internal)) (prefer_same-IsGranted internal)
  choose_host_port-IsGranted (pos (suc n)) internal =
      bind-Gives S (Reserved (pos (suc n))) (IsGranted (pos (suc n)))
        (attempt (reserve S (pos (suc n)))) (reserve_wanted S (pos (suc n)))
        (reserve-Reserved (pos (suc n))) (reserve_wanted-IsGranted (pos (suc n)))
  choose_host_port-IsGranted (negsuc n) internal =
      bind-Gives S (Reserved (negsuc n)) (IsGranted (negsuc n)) (attempt (reserve S (negsuc n)))
        (reserve_wanted S (negsuc n)) (reserve-Reserved (negsuc n))
        (reserve_wanted-IsGranted (negsuc n))

  -- The mapping that a request is to get.
  abbrev pub IsRequested : AddPortRequest → PortMapping → Type 0
  IsRequested req p =
      (host_range_start ≤ p.host_port)
      × ((p.host_port ≤ host_range_end)
          × (((req.host_port ≡ pos 0) ⊎ (req.host_port ≡ pos p.host_port))
              × ((req.internal_port ≡ pos p.internal_port)
                  × (p.protocol
                      ≡ (if to_lower req.protocol == "" then "tcp" else to_lower req.protocol)))))

  positive :
      (port : ℤ)
      → (leb_ℤ port (pos 0) || ltb_ℤ (pos 65535) port) ≡ false
      → port ≡ pos (pos_part port)
  positive port h = ground arith

  mapped :
      (inst : Instance) (req : AddPortRequest)
      → (leb_ℤ req.internal_port (pos 0) || ltb_ℤ (pos 65535) req.internal_port) ≡ false
      → Gives S (IsRequested req) (
          choose_host_port S req.host_port (pos_part req.internal_port) >>= λ host.
          map_port S inst
            (if to_lower req.protocol == "" then "tcp" else to_lower req.protocol)
            (pos_part req.internal_port)
            host)
  mapped inst req valid =
      bind-Gives S (IsGranted req.host_port) (IsRequested req)
        (choose_host_port S req.host_port (pos_part req.internal_port))
        (λ host.
          map_port S inst (if to_lower req.protocol == "" then "tcp" else to_lower req.protocol)
            (pos_part req.internal_port) host)
        (choose_host_port-IsGranted req.host_port (pos_part req.internal_port))
        λ host (low, (high, wanted)). record {
          gives = λ w p h.
              let (proto, (internal, same)) =
                (map_port-HasFields S inst
                    (if to_lower req.protocol == "" then "tcp" else to_lower req.protocol)
                    (pos_part req.internal_port) host).gives
                  w p h in
              (
                rw same low,
                (
                  rw same high,
                  (
                    rw same wanted,
                    (positive req.internal_port valid ∙ ap pos (sym internal), proto),
                  ),
                ),
              );
        }

  -- A mapping that `AddPortMapping` returns leads from a host port of the configured range, the one that was
  -- asked for if there was one, to the guest port that was asked for, under the protocol that was asked for in
  -- lower case, or tcp where none was.
  pub add_port_mapping-IsRequested :
      (id : ℕ) (req : AddPortRequest) (w : World S) (p : PortMapping)
      → (add_port_mapping S id req w).0 ≡ ok p
      → IsRequested req p
  unfolding add_port_mapping
  add_port_mapping-IsRequested id req w p h = requested.gives w p h
    where
      requested : Gives S (IsRequested req) (add_port_mapping S id req)
      requested = search (last-Gives, guard-Gives, mapped) depth 16
