-- ===== src/History/Invariant.antt =====
-- The invariant of every history of requests to reference-client/internal/testrouter.
use masterdata_sync_working.Prelude.{
  ℕ, String, Bool, Option, some, List, [], ◌∷◌, keep, ◌≡◌, ◌≢◌, refl, sym, ◌∙◌, arith,
}
use masterdata_sync_working.Json.{Value}
use masterdata_sync_working.Assigned.{SentIdentity}
use masterdata_sync_working.Failure.{ok, err, panic}
use masterdata_sync_working.Platform.{Platform}
use masterdata_sync_working.Model.{EntityType, Endpoint, Object}
use masterdata_sync_working.Store.{Store, find_object}
use masterdata_sync_working.Write.{put_entity, deactivate}
use masterdata_sync_working.Write.Merge.{ℤ}
use masterdata_sync_working.Write.Objects.{put_entity-AllStored, deactivate-AllStored}
use masterdata_sync_working.Write.Keeps.{put_entity-IsConsistent, deactivate-IsConsistent}
use masterdata_sync_working.Write.Safety.{put_entity_safe, deactivate_safe}
use masterdata_sync_working.Reset.{reset_tenant, wiped}
use masterdata_sync_working.Reset.Wipes.{
  UniqueIds, reset-Wiped, other_tenant, find_object-kept, surviving, reset_tenant_lem,
  reset_tenant-IsConsistent,
}
use masterdata_sync_working.InitialLoad.{start_load, set_load_state}
use masterdata_sync_working.Selection.{insert_endpoint, remove_endpoint}
use masterdata_sync_working.Streams.{live_stream, take_drop, finish_load}
use masterdata_sync_working.History.{
  Step, puts, deactivates, binds, corrects, requests, advances, asks_user, starts_load, ends_load,
  drops_load, connects, selects, declares, onboards, unregisters, resets, Reachable, at_start,
  after,
}
use masterdata_sync_working.History.Sound.{
  IsSound, Besides, Besides-IsSound, new_store-IsSound, put_entity-UniqueIds, deactivate-UniqueIds,
  bind-IsSound, correct-IsSound, advance_load_state-IsSound, request-Besides, raise-Besides,
  select-Besides, declare-Besides,
}

keep-UniqueIds :
    (tenant : ℕ) (os : List Object) → UniqueIds os → UniqueIds (keep (other_tenant tenant) os)
keep-UniqueIds tenant [] u = tt
keep-UniqueIds tenant (o ∷ os) u =
    ground (arith, keep-UniqueIds tenant os u.1, find_object-kept tenant o.id os u.0)

surviving-some :
    (tenant : ℕ) (found : Option Object) (o : Object)
    → surviving tenant found ≡ some o
    → found ≡ some o
surviving-some tenant found o h = ground arith

reset_tenant-IsSound :
    (p : Platform) (tenant : ℕ) (s t : Store)
    → reset_tenant p tenant s ≡ ok t
    → IsSound s
    → IsSound t
unfolding wiped
reset_tenant-IsSound p tenant s t h sound =
    let reset = reset_tenant_lem p tenant s t h sound.unique in
    let w = reset-Wiped p tenant s t h in
    record {
      consistent = reset_tenant-IsConsistent p tenant s t h sound.unique sound.consistent;
      stored = λ id o found.
          let was =
            sound.stored id o
              (surviving-some tenant (find_object id s.objects) o (sym (reset.0 id) ∙ found)) in
          record {
            recorded = was.recorded;
            positive = was.positive;
            placed = omega (arith, was.placed, reset.2);
          };
      unique = rw w.0 (keep-UniqueIds tenant s.objects sound.unique);
    }

remove_endpoint-IsSound : (ep : Endpoint) (s : Store) → IsSound s → IsSound (remove_endpoint ep s)
unfolding remove_endpoint
remove_endpoint-IsSound ep s sound = record {
  consistent = record {
    from_local = λ e t l id h. ground (arith, sound.consistent.from_local e t l id);
    held = λ e id l h. ground (arith, sound.consistent.held e id l);
    from_canonical = λ e id l t h k. ground (arith, sound.consistent.from_canonical e id l t);
  };
  stored = sound.stored;
  unique = sound.unique;
}

finish-Besides :
    (ep : Endpoint) (drop corrupt : Bool) (now : ℕ) (s : Store)
    → Besides s (finish_load ep drop corrupt now s)
unfolding finish_load set_load_state
finish-Besides ep drop corrupt now s = ground arith

Step-IsSound : (p : Platform) {s t : Store} → Step p s t → IsSound s → IsSound t
unfolding start_load live_stream take_drop insert_endpoint
Step-IsSound p {s} (puts ep typ l body base sent fresh now new) h = record {
  consistent = put_entity-IsConsistent p ep typ l s h.consistent body base sent fresh now new;
  stored = put_entity-AllStored p ep typ l s h.stored body base sent fresh now;
  unique = put_entity-UniqueIds p ep typ l body base sent fresh now s h.unique;
}
Step-IsSound p {s} (deactivates ep typ l base now) h = record {
  consistent = deactivate-IsConsistent p ep typ l s h.consistent base now;
  stored = deactivate-AllStored p ep typ l s h.stored base now;
  unique = deactivate-UniqueIds p ep typ l base now s h.unique;
}
Step-IsSound p {s} {t} (binds ep typ l id e) h = bind-IsSound ep typ l id s t e h
Step-IsSound p {s} {t} (corrects ep typ entries e) h = correct-IsSound ep typ entries s t e h
Step-IsSound p {s} {t} (requests ep typ id e) h =
    Besides-IsSound s t (request-Besides p ep typ id s t e) h
Step-IsSound p {s} {t} (advances ep target bindings now e) h =
    advance_load_state-IsSound ep target bindings now s t e h
Step-IsSound p {s} {t} (asks_user ep now e) h = Besides-IsSound s t (raise-Besides ep now s t e) h
Step-IsSound p {s} (starts_load ep now) h = Besides-IsSound s _ (refl, refl, refl, omega arith) h
Step-IsSound p {s} (ends_load ep drop corrupt now) h =
    Besides-IsSound s _ (finish-Besides ep drop corrupt now s) h
Step-IsSound p {s} (drops_load ep) h = Besides-IsSound s _ (refl, refl, refl, omega arith) h
Step-IsSound p {s} (connects app id channel) h =
    Besides-IsSound s _ (refl, refl, refl, omega arith) h
Step-IsSound p {s} {t} (selects ep types now e) h =
    Besides-IsSound s t (select-Besides p ep types now s t e) h
Step-IsSound p {s} {t} (declares ep types e) h =
    Besides-IsSound s t (declare-Besides p ep types s t e) h
Step-IsSound p {s} (onboards x a tenant fresh) h =
    Besides-IsSound s _ (refl, refl, refl, omega arith) h
Step-IsSound p {s} (unregisters ep) h = remove_endpoint-IsSound ep s h
Step-IsSound p {s} {t} (resets tenant e) h = reset_tenant-IsSound p tenant s t e h

-- After any requests in any order, the two maps of the mapping say the same, each object's history
-- ends at its revision and holds its content, no object lies past the position, and no identifier is
-- an object's twice.
pub Reachable-IsSound : (p : Platform) (s : Store) → Reachable p s → IsSound s
Reachable-IsSound p _ at_start = new_store-IsSound
Reachable-IsSound p _ (after r st) = Step-IsSound p st (Reachable-IsSound p _ r)

-- After any requests in any order, neither a put nor a deactivate dereferences a nil pointer.
pub Reachable-safe :
    (p : Platform) (s : Store) (ep : Endpoint) (typ : EntityType) (local_id : String) (body : Value)
    (base : Option ℤ) (sent : SentIdentity) (fresh now : ℕ)
    → Reachable p s
    → ((put_entity p ep typ local_id body base sent fresh now s).1 ≢ err panic)
      × ((deactivate p ep typ local_id base now s).1 ≢ err panic)
Reachable-safe p s ep typ local_id body base sent fresh now r =
    let sound = Reachable-IsSound p s r in
    (
      put_entity_safe p ep typ local_id body base sent fresh now s sound.consistent,
      deactivate_safe p ep typ local_id base now s sound.consistent,
    )
