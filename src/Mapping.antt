-- ===== src/Mapping.antt =====
-- The identifier mapping: bind, bindLocked and correct of
-- reference-client/internal/testrouter/ssot.go.
pub mod Invariant
pub mod Binds
pub mod Corrects
use masterdata_sync_working.Prelude.{
  ℕ, String, Bool, true, false, ◌&&◌, not, Option, none, some, List, [], ◌∷◌, any, ◌==◌, str_eq,
  if◌then◌else◌,
}
use masterdata_sync_working.Failure.{
  Result, ok, err, invalid, not_found, forbidden, mapping_conflict, ◌>>=◌, ◌>>◌,
}
use masterdata_sync_working.Model.{
  EntityType, same_type, Object, Endpoint, opted_into, local_id_already_bound,
  agrirouter_id_already_bound,
}
use masterdata_sync_working.Store.{Store, find_object, lookup_local, at_local, at_pair}

-- Whether an object is there, of the type and in the tenant that an endpoint names it under.
unfoldable pub is_object : Endpoint → EntityType → Option Object → Bool
is_object ep typ none = false
is_object ep typ (some o) = same_type o.typ typ && o.tenant_id == ep.tenant_id

unfoldable pub write_pair : Endpoint → EntityType → String → ℕ → Store → Store
write_pair ep typ local_id id s = record s {
  local = at_local ep.id typ local_id (some id) s.local;
  canonical = at_pair ep.id id (some local_id) s.canonical;
}

-- bindLocked, which bind calls under the lock.
unfoldable pub bind : Endpoint → EntityType → String → ℕ → Store → Result Store
unfolding is_object write_pair
bind ep typ local_id id s =
    if not (is_object ep typ (find_object id s.objects))
    then err not_found
    else if not (opted_into ep typ)
    then err forbidden
    else elim (lookup_local s ep typ local_id) [
      | some existing ↦
          if existing == id
          then ok s
          else err (
              mapping_conflict (record {
                reason = local_id_already_bound;
                existing = some (record { local_id = local_id; agrirouter_id = existing });
                submitted = none;
              }))
      | none ↦ elim (s.canonical ep.id id) [
        | some existing ↦ err (
            mapping_conflict (record {
              reason = agrirouter_id_already_bound;
              existing = some (record { local_id = existing; agrirouter_id = id });
              submitted = none;
            }))
        | none ↦
            let written = write_pair ep typ local_id id s in
            ok (record written { local_entries = at_pair ep.id id none s.local_entries })
      ]
    ]

-- One entry of a correction: `local_id` ends mapped to `target`, or to nothing.
pub record Correction : Type 0 where
  pub local_id : String
  pub target : Option ℕ

-- `listed[localID]`
unfoldable pub lists : String → List Correction → Bool
lists local_id [] = false
lists local_id (e ∷ es) = if str_eq e.local_id local_id then true else lists local_id es

abbrev pub same_target : ℕ → Option ℕ → Bool
same_target id none = false
same_target id (some t) = t == id

-- `targets[id]`
unfoldable pub targets : ℕ → List Correction → Bool
targets id [] = false
targets id (e ∷ es) = if same_target id e.target then true else targets id es

-- The first loop of correct: no localId and no target is listed twice. `before` holds the entries
-- already passed, newest first.
unfoldable pub check_listed : List Correction → List Correction → Result (Unit {0})
unfolding lists targets
check_listed before [] = ok tt
check_listed before (e ∷ es) =
    if lists e.local_id before
    then err (invalid "localId is listed more than once")
    else elim e.target [
      | none ↦ check_listed (e ∷ before) es
      | some id ↦
          if targets id before
          then err (invalid "agrirouterId is listed more than once")
          else check_listed (e ∷ before) es
    ]

check_free : Endpoint → Correction → ℕ → Option String → List Correction → Result (Unit {0})
unfolding lists
check_free ep e id none entries = ok tt
check_free ep e id (some holder) entries =
    if lists holder entries
    then ok tt
    else err (
        mapping_conflict (record {
          reason = agrirouter_id_already_bound;
          existing = some (record { local_id = holder; agrirouter_id = id });
          submitted = some (record { local_id = e.local_id; agrirouter_id = id });
        }))

check_entry :
    Store → Endpoint → EntityType → List Correction → Correction → Option ℕ → Result (Unit {0})
unfolding check_free is_object
check_entry s ep typ entries e none = ok tt
check_entry s ep typ entries e (some id) =
    if not (is_object ep typ (find_object id s.objects))
    then err not_found
    else check_free ep e id (s.canonical ep.id id) entries

-- The second loop: each target is an object of this type and tenant, and no localId outside the
-- request holds it.
unfoldable pub check_targets :
    Store → Endpoint → EntityType → List Correction → List Correction → Result (Unit {0})
unfolding check_entry
check_targets s ep typ entries [] = ok tt
check_targets s ep typ entries (e ∷ es) =
    check_entry s ep typ entries e e.target >> check_targets s ep typ entries es

unfoldable pub drop_pair : Endpoint → EntityType → String → Option ℕ → Store → Store
drop_pair ep typ local_id none s = s
drop_pair ep typ local_id (some old) s = record s {
  local = at_local ep.id typ local_id none s.local;
  canonical = at_pair ep.id old none s.canonical;
  local_entries = at_pair ep.id old none s.local_entries;
}

-- The third loop: every listed pair goes before any is written.
unfoldable pub drop_listed : Endpoint → EntityType → List Correction → Store → Store
unfolding drop_pair
drop_listed ep typ [] s = s
drop_listed ep typ (e ∷ es) s =
    drop_listed ep typ es (drop_pair ep typ e.local_id (lookup_local s ep typ e.local_id) s)

unfoldable pub write_entry : Endpoint → EntityType → String → Option ℕ → Store → Store
unfolding write_pair
write_entry ep typ local_id none s = s
write_entry ep typ local_id (some id) s = write_pair ep typ local_id id s

unfoldable pub write_listed : Endpoint → EntityType → List Correction → Store → Store
unfolding write_entry
write_listed ep typ [] s = s
write_listed ep typ (e ∷ es) s = write_listed ep typ es (write_entry ep typ e.local_id e.target s)

-- correct
unfoldable pub correct : Endpoint → EntityType → List Correction → Store → Result Store
unfolding check_listed check_targets drop_listed write_listed
correct ep typ entries s =
    if not (opted_into ep typ)
    then err forbidden
    else (check_listed [] entries
        >> (check_targets s ep typ entries entries
            >> ok (write_listed ep typ entries (drop_listed ep typ entries s))))
