-- ===== src/Store/Consistent/Instances.antt =====
-- The statements on `instances` keep the tables consistent.
use goincus.Base.{
  ℕ, String, ◌≡◌, refl, ap, ◌∙◌, Bool, true, false, not, ◌&&◌, List, [], ◌∷◌, ◌++◌, ◌==◌, ℕ-Eq,
  String-Eq, any, arith,
}
use goincus.Models.{Instance, InstanceStatus}
use goincus.Store.Tables.{
  valid_row, same_instance, update_rows, create_instance, update_root_password, update_instance,
  update_instance_status, soft_delete_instance,
}
use goincus.Store.Consistent.{distinct, every, Keeps, Kept, has_instance, IsConsistent}
use goincus.Store.Consistent.Rows.{
  any-append, every-append, distinct-append, every-weaken, eq_comm, if-rule,
}

same_instance_comm : (i j : Instance) → same_instance i j ≡ same_instance j i
same_instance_comm i j = ground (arith, eq_comm i.name j.name, eq_comm i.incus_name j.incus_name)

-- Another instance does not take an owner away.
owned-append :
    (instances : List Instance) (i : Instance) (id : ℕ)
    → has_instance instances id ≡ true
    → has_instance (instances ++ i ∷ []) id ≡ true
owned-append instances i id h = ground (arith, any-append (λ j. j.id == id) instances i)

-- Consistent tables stay consistent when an instance is inserted, or refused because its identifier or
-- a name is taken or a value breaks a check.
pub create_instance-Keeps : (i : Instance) → Keeps (create_instance i)
unfolding create_instance
create_instance-Keeps i now d c =
    if-rule Kept (any (same_instance i) d.instances) _ _ (λ taken. c)
      λ fresh. if-rule Kept (valid_row i) _ _ (λ valid. inserted fresh valid) λ invalid. c
  where
    row : Instance
    row = record i { ports = [] }

    inserted :
        any (same_instance i) d.instances ≡ false
        → valid_row i ≡ true
        → IsConsistent (record d { instances = d.instances ++ row ∷ [] })
    inserted fresh valid = record {
      instances_distinct =
          distinct-append same_instance same_instance_comm d.instances row c.instances_distinct
            fresh;
      instances_valid = every-append valid_row d.instances row c.instances_valid valid;
      mappings_distinct = c.mappings_distinct;
      mappings_valid = c.mappings_valid;
      mappings_owned =
          every-weaken (λ p. has_instance d.instances p.instance_id) _ d.port_mappings
            (λ p. owned-append d.instances row p.instance_id) c.mappings_owned;
      usage_distinct = c.usage_distinct;
      usage_valid = c.usage_valid;
      usage_owned =
          every-weaken (λ r. has_instance d.instances r.instance_id) _ d.daily_usage
            (λ r. owned-append d.instances row r.instance_id) c.usage_owned;
    }

-- A change of a row that its keys and its checks do not see.
pub record Harmless (f : Instance → Instance) : Type 0 where
  pub id_kept : (i : Instance) → (f i).id ≡ i.id
  pub name_kept : (i : Instance) → (f i).name ≡ i.name
  pub incus_name_kept : (i : Instance) → (f i).incus_name ≡ i.incus_name
  pub valid_kept : (i : Instance) → valid_row i ≡ true → valid_row (f i) ≡ true

module _ (f : Instance → Instance) (harmless : Harmless f) where
  any-update_rows :
      (p : Instance → Bool) (same : (i : Instance) → p (f i) ≡ p i) (id : ℕ) (rows : List Instance)
      → any p (update_rows id f rows) ≡ any p rows
  unfolding update_rows
  any-update_rows p same id [] = refl
  any-update_rows p same id (i ∷ rows) = ground (arith, same i, any-update_rows p same id rows)

  pub has_instance-update_rows :
      (id j : ℕ) (rows : List Instance)
      → has_instance (update_rows id f rows) j ≡ has_instance rows j
  has_instance-update_rows id j rows =
      any-update_rows (λ i. i.id == j) (λ i. ap (λ n. n == j) (harmless.id_kept i)) id rows

  same_instance-changed : (i j : Instance) → same_instance i (f j) ≡ same_instance i j
  same_instance-changed i j =
      rw (harmless.id_kept j, harmless.name_kept j, harmless.incus_name_kept j) refl

  same_instance-changed_left : (i j : Instance) → same_instance (f i) j ≡ same_instance i j
  same_instance-changed_left i j =
      rw (harmless.id_kept i, harmless.name_kept i, harmless.incus_name_kept i) refl

  any-changed_left :
      (i : Instance) (rows : List Instance)
      → any (same_instance (f i)) rows ≡ any (same_instance i) rows
  any-changed_left i [] = refl
  any-changed_left i (j ∷ rows) = rw (same_instance-changed_left i j, any-changed_left i rows) refl

  distinct-update_rows :
      (id : ℕ) (rows : List Instance)
      → distinct same_instance rows ≡ true
      → distinct same_instance (update_rows id f rows) ≡ true
  unfolding update_rows
  distinct-update_rows id [] h = refl
  distinct-update_rows id (i ∷ rows) h =
      let rest = distinct-update_rows id rows in
      let others = any-update_rows (same_instance i) (same_instance-changed i) id rows in
      let others' =
        any-update_rows (same_instance (f i)) (same_instance-changed (f i)) id rows
        ∙ any-changed_left i rows in
      if-rule
        (λ x.
          (not (any (same_instance x) (update_rows id f rows))
            && distinct same_instance (update_rows id f rows))
          ≡ true)
        (i.id == id) (f i) i (λ here. rw others' (ground (arith, rest)))
        λ elsewhere. rw others (ground (arith, rest))

  valid-update_rows :
      (id : ℕ) (rows : List Instance)
      → every valid_row rows ≡ true
      → every valid_row (update_rows id f rows) ≡ true
  unfolding update_rows
  valid-update_rows id [] h = refl
  valid-update_rows id (i ∷ rows) h =
      if-rule (λ x. (valid_row x && every valid_row (update_rows id f rows)) ≡ true) (i.id == id)
        (f i) i (λ here. ground (arith, harmless.valid_kept i, valid-update_rows id rows))
        λ elsewhere. ground (arith, valid-update_rows id rows)

  pub update_instance-Keeps : (id : ℕ) → Keeps (update_instance id f)
  update_instance-Keeps id now d c = record {
    instances_distinct = distinct-update_rows id d.instances c.instances_distinct;
    instances_valid = valid-update_rows id d.instances c.instances_valid;
    mappings_distinct = c.mappings_distinct;
    mappings_valid = c.mappings_valid;
    mappings_owned =
        every-weaken (λ p. has_instance d.instances p.instance_id) _ d.port_mappings
          (λ p h. has_instance-update_rows id p.instance_id d.instances ∙ h) c.mappings_owned;
    usage_distinct = c.usage_distinct;
    usage_valid = c.usage_valid;
    usage_owned =
        every-weaken (λ r. has_instance d.instances r.instance_id) _ d.daily_usage
          (λ r h. has_instance-update_rows id r.instance_id d.instances ∙ h) c.usage_owned;
  }

pub update_instance_status-Keeps :
    (id : ℕ) (status : InstanceStatus) (message : String)
    → Keeps (update_instance_status id status message)
unfolding valid_row
update_instance_status-Keeps id status message now =
    update_instance-Keeps
      (λ i. record i { status = status; error_message = message; updated_at = now })
      (record {
        id_kept = λ i. refl;
        name_kept = λ i. refl;
        incus_name_kept = λ i. refl;
        valid_kept = λ i h. h;
      })
      id now

pub update_root_password-Keeps :
    (id : ℕ) (password : String) → Keeps (update_root_password id password)
unfolding valid_row
update_root_password-Keeps id password now =
    update_instance-Keeps (λ i. record i { root_password = password; updated_at = now })
      (record {
        id_kept = λ i. refl;
        name_kept = λ i. refl;
        incus_name_kept = λ i. refl;
        valid_kept = λ i h. h;
      })
      id now

pub soft_delete_instance-Keeps : (id : ℕ) → Keeps (soft_delete_instance id)
unfolding valid_row
soft_delete_instance-Keeps id now =
    update_instance-Keeps (λ i. record i { status = InstanceStatus.deleted; updated_at = now })
      (record {
        id_kept = λ i. refl;
        name_kept = λ i. refl;
        incus_name_kept = λ i. refl;
        valid_kept = λ i h. h;
      })
      id now
