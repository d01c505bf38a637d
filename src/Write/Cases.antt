-- ===== src/Write/Cases.antt =====
-- The ways in which put and deactivate end: reference-client/internal/testrouter/ssot.go.
use masterdata_sync_working.Prelude.{
  ℕ, ◌+◌, String, Bool, true, false, ◌&&◌, ◌||◌, not, Option, none, some, List, ◌≡◌, refl, sym,
  subst, if◌then◌else◌, Bool-cases, Option-cases, ◌⊎◌, inl, inr, arith,
}
use masterdata_sync_working.Json.{Value, empty}
use masterdata_sync_working.Failure.{
  Failure, Result, ok, err, panic, base_required, revision_conflict, not_found, forbidden,
}
use masterdata_sync_working.Platform.{Platform}
use masterdata_sync_working.Model.{EntityType, Object, Endpoint, opted_into, details_key}
use masterdata_sync_working.Assigned.{SentIdentity, check_binding}
use masterdata_sync_working.Store.{Store, find_object, put_object, lookup_local, record_local_entry}
use masterdata_sync_working.Deliver.{deliver}
use masterdata_sync_working.Write.{
  Write, create, put_new, updated, commit, merge_from, put_known, put_bound, put_entity, stamped,
  read_content, deactivate_active, deactivate_bound, deactivate, true_by_default, active_changes,
  no_changes,
}
use masterdata_sync_working.Write.Content.{check_kind_change}
use masterdata_sync_working.Write.Merge.{
  ℤ, Change, new_content, patched, changes_something, change_at, merge_changes, read_base,
  same_revision,
}

pub Result-cases {ℓ} :
    {A : Type ℓ} (r : Result A) → ((a : A) × (r ≡ ok a)) ⊎ ((e : Failure) × (r ≡ err e))
Result-cases (ok a) = inl (a, refl)
Result-cases (err e) = inr (e, refl)

module _ (p : Platform) (ep : Endpoint) (fresh now : ℕ) (s : Store) where
  -- The store and the object after a create.
  abbrev pub created : Write → Store × Object
  created w =
      create ep w.typ w.local_id (new_content w.typ w.incoming empty) (true_by_default w.active)
        fresh now s

  abbrev pub after_create : Write → Store
  after_create w =
      let (t, o) = created w in deliver p o ep.id false (record_local_entry ep.id o.id w.local t)

  abbrev pub kept : Write → Object → Store
  kept w o = record_local_entry ep.id o.id w.local s

  abbrev pub after_update : Write → Object → List Change → Store
  after_update w o changes =
      let q = updated ep w o changes now (s.seq + 1) in
      deliver p q ep.id false
        (record (kept w o) { seq = s.seq + 1; objects = put_object q s.objects })

  -- A put leaves the store as it was, keeps the write's local entry alone, makes an object, or
  -- changes one.
  module _ (P : Store × Result (Object × Bool) → Type 0) where
    pub record PutCases (typ : EntityType) (local_id : String) : Type 0 where
      pub refused : (e : Failure) → P (s, err e)
      pub makes :
          (w : Write)
          → w.typ ≡ typ
          → w.local_id ≡ local_id
          → lookup_local s ep typ local_id ≡ none
          → P (after_create w, ok ((created w).1, true))
      pub stands :
          (w : Write) (o : Object) (id : ℕ)
          → lookup_local s ep typ local_id ≡ some id
          → find_object id s.objects ≡ some o
          → (r : Result (Object × Bool)) → ((q : Object × Bool) → r ≡ ok q → q ≡ (o, false))
          → P (kept w o, r)
      pub changes :
          (w : Write) (o : Object) (id : ℕ)
          → lookup_local s ep typ local_id ≡ some id
          → find_object id s.objects ≡ some o
          → (cs : List Change)
          → P (after_update w o cs, ok (updated ep w o cs now (s.seq + 1), false))

    module _ (typ : EntityType) (local_id : String) (c : PutCases typ local_id) where
      by_create :
          (w : Write)
          → w.typ ≡ typ
          → w.local_id ≡ local_id
          → lookup_local s ep typ local_id ≡ none
          → P (put_new p ep w fresh now s)
      unfolding put_new
      by_create w t l h = elim (Option-cases w.base) [
        | inl none_sent ↦ rw (none_sent, put_new) (c.makes w t l h)
        | inr (b, sent) ↦ rw (sent, put_new) (c.refused (revision_conflict 0))
      ]

      by_commit :
          (w : Write) (o : Object) (id : ℕ) (cs : List Change)
          → lookup_local s ep typ local_id ≡ some id
          → find_object id s.objects ≡ some o
          → P (commit p ep w o cs now (kept w o))
      unfolding commit record_local_entry
      by_commit w o id cs h k =
          elim (Bool-cases (no_changes cs && not (active_changes w.active o.active))) [
            | inl nothing ↦ rw nothing (c.stands w o id h k (ok (o, false)) (λ q e. ground arith))
            | inr something ↦ rw something (c.changes w o id h k cs)
          ]

      by_merge :
          (w : Write) (o : Object) (id : ℕ)
          → lookup_local s ep typ local_id ≡ some id
          → find_object id s.objects ≡ some o
          → P (merge_from p ep w o now (kept w o))
      unfolding merge_from
      by_merge w o id h k = elim (Option-cases w.base) [
        | inl none_sent ↦
            rw (none_sent, merge_from) (c.stands w o id h k (err base_required) (λ q e. cc))
        | inr (b, sent) ↦ elim (Option-cases (read_base b o.revision)) [
          | inl out ↦
              rw (sent, merge_from)
                (rw out (c.stands w o id h k (err (revision_conflict o.revision)) (λ q e. cc)))
          | inr (base, read) ↦ elim (Result-cases (merge_changes w.typ o base w.incoming)) [
            | inl (cs, merged) ↦
                rw (sent, merge_from) (rw read (rw merged (by_commit w o id cs h k)))
            | inr (e, clash) ↦
                rw (sent, merge_from) (rw read (rw clash (c.stands w o id h k (err e) (λ q e. cc))))
          ]
        ]
      ]

      by_update :
          (w : Write) (o : Object) (id : ℕ)
          → lookup_local s ep typ local_id ≡ some id
          → find_object id s.objects ≡ some o
          → P (put_known p ep w o now s)
      unfolding put_known
      by_update w o id h k =
          let changes = patched w.typ o.content w.incoming in
          elim (Result-cases (check_kind_change p (kept w o) o (change_at details_key changes))) [
            | inr (e, refused) ↦ rw (put_known, refused) (c.stands w o id h k (err e) (λ q e. cc))
            | inl (u, passed) ↦
                elim (Bool-cases
                  (active_changes w.active o.active || changes_something o.content changes)) [
                    | inl something ↦ rw (put_known, passed, something) (by_merge w o id h k)
                    | inr nothing ↦
                        rw (put_known, passed, nothing)
                          (c.stands w o id h k (ok (o, false)) (λ q e. ground arith))
                  ]
          ]

      by_bound :
          (w : Write)
          → w.typ ≡ typ
          → w.local_id ≡ local_id
          → (o : Option ℕ) → lookup_local s ep typ local_id ≡ o
          → P (put_bound p ep w o fresh now s)
      unfolding put_bound
      by_bound w t l none h = by_create w t l h
      by_bound w t l (some id) h = elim (Option-cases (find_object id s.objects)) [
        | inl gone ↦ rw (gone, put_bound) (c.refused panic)
        | inr (o, found) ↦ rw (found, put_bound) (by_update w o id h found)
      ]

      -- What holds in each of these cases holds of put.
      pub put_entity_cases :
          (body : Value) (base : Option ℤ) (sent : SentIdentity)
          → P (put_entity p ep typ local_id body base sent fresh now s)
      unfolding put_entity
      put_entity_cases body base sent = elim (Result-cases (read_content p ep typ body s)) [
        | inr (e, unread) ↦ rw (unread, put_entity) (c.refused e)
        | inl (incoming, read) ↦
            elim (Result-cases
              (check_binding sent.agrirouter_id (lookup_local s ep typ local_id))) [
                | inr (e, other) ↦ rw (read, put_entity) (rw other (c.refused e))
                | inl (u, agrees) ↦
                    rw (read, put_entity)
                      (rw agrees (by_bound _ refl refl (lookup_local s ep typ local_id) refl))
              ]
      ]

-- A deactivate leaves the store as it was, or changes the object that it names.
module _ (p : Platform) (ep : Endpoint) (typ : EntityType) (local_id : String) (now : ℕ) (s : Store)
    (P : Store × Result Object → Type 0) where
  abbrev pub deactivated : Object → Object
  deactivated o =
      stamped (record o { revision = o.revision + 1; active = false }) ep now (s.seq + 1)

  abbrev pub after_deactivate : Object → Store
  after_deactivate o =
      deliver p (deactivated o) ep.id true
        (record s { seq = s.seq + 1; objects = put_object (deactivated o) s.objects })

  pub record DeactivateCases : Type 0 where
    pub refused : (e : Failure) → P (s, err e)
    pub inactive :
        (o : Object) (id : ℕ)
        → lookup_local s ep typ local_id ≡ some id
        → find_object id s.objects ≡ some o
        → o.active ≡ false
        → P (s, ok o)
    pub ends :
        (o : Object) (id : ℕ)
        → lookup_local s ep typ local_id ≡ some id
        → find_object id s.objects ≡ some o
        → o.active ≡ true
        → P (after_deactivate o, ok (deactivated o))

  module _ (c : DeactivateCases) where
    by_active :
        (base : Option ℤ) (o : Object) (id : ℕ)
        → lookup_local s ep typ local_id ≡ some id
        → find_object id s.objects ≡ some o
        → o.active ≡ true
        → P (deactivate_active p ep base o now s)
    unfolding deactivate_active
    by_active none o id h k a = c.refused base_required
    by_active (some b) o id h k a = elim (Bool-cases (same_revision b o.revision)) [
      | inl current ↦ rw (current, deactivate_active) (c.ends o id h k a)
      | inr stale ↦ rw (stale, deactivate_active) (c.refused (revision_conflict o.revision))
    ]

    by_flag :
        (base : Option ℤ) (o : Object) (id : ℕ)
        → lookup_local s ep typ local_id ≡ some id
        → find_object id s.objects ≡ some o
        → P (if o.active then deactivate_active p ep base o now s else (s, ok o))
    by_flag base o id h k = elim (Bool-cases o.active) [
      | inl a ↦
          subst (λ b. P (if b then deactivate_active p ep base o now s else (s, ok o))) (sym a)
            (by_active base o id h k a)
      | inr i ↦
          subst (λ b. P (if b then deactivate_active p ep base o now s else (s, ok o))) (sym i)
            (c.inactive o id h k i)
    ]

    by_name :
        (base : Option ℤ) (o : Option ℕ)
        → lookup_local s ep typ local_id ≡ o
        → P (deactivate_bound p ep base o now s)
    unfolding deactivate_bound
    by_name base none h = c.refused not_found
    by_name base (some id) h = elim (Option-cases (find_object id s.objects)) [
      | inl gone ↦ rw (gone, deactivate_bound) (c.refused panic)
      | inr (o, found) ↦ rw (found, deactivate_bound) (by_flag base o id h found)
    ]

    pub deactivate_cases : (base : Option ℤ) → P (deactivate p ep typ local_id base now s)
    unfolding deactivate
    deactivate_cases base = elim (Bool-cases (opted_into ep typ)) [
      | inl opted ↦ rw (opted, deactivate) (by_name base (lookup_local s ep typ local_id) refl)
      | inr out ↦ rw (out, deactivate) (c.refused forbidden)
    ]
