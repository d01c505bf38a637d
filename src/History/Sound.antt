-- ===== src/History/Sound.antt =====
-- What every store of reference-client/internal/testrouter satisfies, whatever the requests.
use masterdata_sync_working.Prelude.{
  ℕ, ◌+◌, ◌≤◌, String, Option, List, [], ◌∷◌, ◌≡◌, refl, arith, inl, inr, ◌⊎◌,
}
use masterdata_sync_working.Failure.{ok}
use masterdata_sync_working.Platform.{Platform}
use masterdata_sync_working.Model.{LoadPhase, Binding, EntityType, Endpoint, Object}
use masterdata_sync_working.Store.{record_local_entry, Store, new_store, find_object, put_object}
use masterdata_sync_working.Store.Lookup.{find-put_object}
use masterdata_sync_working.Mapping.Invariant.{IsConsistent, IsConsistent-same}
use masterdata_sync_working.Mapping.Binds.{bind-IsConsistent}
use masterdata_sync_working.Mapping.Corrects.Result.{correct-IsConsistent}
use masterdata_sync_working.Write.Objects.{AllStored}
use masterdata_sync_working.Json.{Value}
use masterdata_sync_working.Assigned.{SentIdentity}
use masterdata_sync_working.Deliver.{deliver, deliver_to}
use masterdata_sync_working.Mapping.{Correction, bind, correct}
use masterdata_sync_working.Mapping.Binds.{bind_lem}
use masterdata_sync_working.Mapping.Corrects.Result.{correct_quiet}
use masterdata_sync_working.Write.{put_entity, deactivate, create, updated}
use masterdata_sync_working.Write.Merge.{ℤ}
use masterdata_sync_working.Write.Cases.{put_entity_cases, deactivate_cases, created}
use masterdata_sync_working.InitialLoad.{
  apply_bindings, is_duplicate, advance_load_state, raise_awaiting_user, publish_selection,
  record_participant,
}
use masterdata_sync_working.InitialLoad.Duplicates.{apply_each_keeps}
use masterdata_sync_working.Selection.{select_types, declare_types}
use masterdata_sync_working.Streams.{request}
use masterdata_sync_working.Reset.Wipes.{UniqueIds}

-- The mapping is consistent, every object is stored with its history, and no identifier is twice.
pub record IsSound (s : Store) : Type 0 where
  pub consistent : IsConsistent s
  pub stored : AllStored s
  pub unique : UniqueIds s.objects

-- What an operation leaves that changes neither objects nor the mapping.
abbrev pub Besides : Store → Store → Type 0
Besides s t =
    (t.objects ≡ s.objects) × (t.local ≡ s.local) × (t.canonical ≡ s.canonical) × (s.seq ≤ t.seq)

pub AllStored-same :
    (s t : Store) → t.objects ≡ s.objects → s.seq ≤ t.seq → AllStored s → AllStored t
AllStored-same s t same later all id o found =
    let was = all id o (rw same at found) in
    record { recorded = was.recorded; positive = was.positive; placed = omega (arith, was.placed) }

pub Besides-IsSound : (s t : Store) → Besides s t → IsSound s → IsSound t
Besides-IsSound s t b h = record {
  consistent = IsConsistent-same s t b.1 b.2 (λ id. rw b.0) h.consistent;
  stored = AllStored-same s t b.0 b.3 h.stored;
  unique = rw b.0 h.unique;
}

pub new_store-IsSound : IsSound new_store
unfolding find_object
new_store-IsSound = record {
  consistent = record {
    from_local = λ e t l id h. cc;
    held = λ e id l h. cc;
    from_canonical = λ e id l t h k. cc;
  };
  stored = λ id o h. cc;
  unique = tt;
}

put_object-UniqueIds : (o : Object) (os : List Object) → UniqueIds os → UniqueIds (put_object o os)
unfolding put_object find_object
put_object-UniqueIds o [] u = (refl, tt)
put_object-UniqueIds o (x ∷ os) u =
    ground (arith, put_object-UniqueIds o os, find-put_object x.id o os, u.0)

pub put_entity-UniqueIds :
    (p : Platform) (ep : Endpoint) (typ : EntityType) (l : String) (body : Value) (base : Option ℤ)
    (sent : SentIdentity) (fresh now : ℕ) (s : Store)
    → UniqueIds s.objects
    → UniqueIds (put_entity p ep typ l body base sent fresh now s).0.objects
unfolding record_local_entry deliver create
put_entity-UniqueIds p ep typ l body base sent fresh now s u =
    put_entity_cases p ep fresh now s (λ r. UniqueIds r.0.objects) typ l
      (record {
        refused = λ e. u;
        makes = λ w t l h. put_object-UniqueIds (created p ep fresh now s w).1 s.objects u;
        stands = λ w o id h k r q. u;
        changes =
            λ w o id h k cs. put_object-UniqueIds (updated ep w o cs now (s.seq + 1)) s.objects u;
      })
      body base sent

pub deactivate-UniqueIds :
    (p : Platform) (ep : Endpoint) (typ : EntityType) (l : String) (base : Option ℤ) (now : ℕ)
    (s : Store)
    → UniqueIds s.objects
    → UniqueIds (deactivate p ep typ l base now s).0.objects
unfolding deliver
deactivate-UniqueIds p ep typ l base now s u =
    deactivate_cases p ep typ l now s (λ r. UniqueIds r.0.objects)
      (record {
        refused = λ e. u;
        inactive = λ o id h k a. u;
        ends = λ o id h k a. put_object-UniqueIds _ s.objects u;
      })
      base

pub bind-IsSound :
    (ep : Endpoint) (typ : EntityType) (l : String) (id : ℕ) (s t : Store)
    → bind ep typ l id s ≡ ok t
    → IsSound s
    → IsSound t
bind-IsSound ep typ l id s t h sound =
    let effect = bind_lem ep typ l id s t sound.consistent h in
    record {
      consistent = bind-IsConsistent ep typ l id s t sound.consistent h;
      stored = AllStored-same s t effect.3 (omega (arith, effect.4)) sound.stored;
      unique = rw effect.3 sound.unique;
    }

pub correct-IsSound :
    (ep : Endpoint) (typ : EntityType) (entries : List Correction) (s t : Store)
    → correct ep typ entries s ≡ ok t
    → IsSound s
    → IsSound t
correct-IsSound ep typ entries s t h sound =
    let quiet = correct_quiet ep typ entries s sound.consistent t h in
    record {
      consistent = correct-IsConsistent ep typ entries s sound.consistent t h;
      stored = AllStored-same s t quiet.0 (omega (arith, quiet.1)) sound.stored;
      unique = rw quiet.0 sound.unique;
    }

apply_bindings-IsSound :
    (ep : Endpoint) (bindings : List Binding) (s : Store)
    → IsSound s
    → IsSound (apply_bindings ep bindings s).0
unfolding apply_bindings
apply_bindings-IsSound ep bindings s sound =
    apply_each_keeps ep (is_duplicate s bindings) IsSound
      (λ s t typ l id bound h. bind-IsSound ep typ l id s t bound h) bindings s sound

advance-Besides :
    (ep : Endpoint) (target : LoadPhase) (bindings : List Binding) (now : ℕ) (s t : Store)
    → advance_load_state ep target bindings now s ≡ ok t
    → Besides s t ⊎ Besides (apply_bindings ep bindings s).0 t
unfolding advance_load_state
advance-Besides ep target bindings now s t h = ground arith

pub advance_load_state-IsSound :
    (ep : Endpoint) (target : LoadPhase) (bindings : List Binding) (now : ℕ) (s t : Store)
    → advance_load_state ep target bindings now s ≡ ok t
    → IsSound s
    → IsSound t
advance_load_state-IsSound ep target bindings now s t h sound =
    elim (advance-Besides ep target bindings now s t h) [
      | inl b ↦ Besides-IsSound s t b sound
      | inr b ↦ Besides-IsSound _ t b (apply_bindings-IsSound ep bindings s sound)
    ]

pub request-Besides :
    (p : Platform) (ep : Endpoint) (typ : EntityType) (id : ℕ) (s t : Store)
    → request p ep typ id s ≡ ok t
    → Besides s t
unfolding request deliver_to
request-Besides p ep typ id s t h = ground arith

pub raise-Besides :
    (ep : Endpoint) (now : ℕ) (s t : Store) → raise_awaiting_user ep now s ≡ ok t → Besides s t
unfolding raise_awaiting_user
raise-Besides ep now s t h = ground arith

pub select-Besides :
    (p : Platform) (ep : Endpoint) (types : List EntityType) (now : ℕ) (s t : Store)
    → select_types p ep types now s ≡ ok t
    → Besides s t
unfolding select_types publish_selection record_participant
select-Besides p ep types now s t h = ground arith

pub declare-Besides :
    (p : Platform) (ep : Endpoint) (types : List EntityType) (s t : Store)
    → declare_types p ep types s ≡ ok t
    → Besides s t
unfolding declare_types publish_selection record_participant
declare-Besides p ep types s t h = ground arith
