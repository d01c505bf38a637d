-- ===== src/Client/Apply/Revision.antt =====
-- Apply is guarded by revision: reference-client/internal/platform/sync/inbound.go.
use masterdata_sync_working.Prelude.{
  ℕ, ◌≤◌, String, true, false, Option, none, some, List, ◌≡◌, sym, ◌∙◌, arith, Bool-cases, inl, inr,
  ◌⊎◌,
}
use masterdata_sync_working.Failure.{ok}
use masterdata_sync_working.Model.{EntityType}
use masterdata_sync_working.Client.Identity.{Envelope}
use masterdata_sync_working.Client.Pairs.{Namespace, SyncRow, keyed, sync_row, put_sync_row}
use masterdata_sync_working.Client.Pairs.Keys.{keyed_eq}
use masterdata_sync_working.Client.Pairs.View.{sync_row-put_sync_row}
use masterdata_sync_working.Client.Database.{Entity, Tables, Database}
use masterdata_sync_working.Client.Apply.{Applier, Outcome, pair_of, is_older, apply}
use masterdata_sync_working.Client.Apply.Keeps.{Effect, leaves, writes, apply-Effect}

not_older :
    (env : Envelope) (x : SyncRow) (m n : ℕ)
    → is_older env (some x) ≡ false
    → env.revision ≡ some n
    → x.revision ≡ some m
    → m ≤ n
not_older env x m n newer at held = ground arith

module _ {T : Type 0} (db : Tables T) (a : Applier) where
  -- Where an object of some revision is applied, without a recogniser and with a fresh identifier for
  -- a record it makes, every pair that had a revision still has one, and none that is lower.
  pub apply-revision :
      (e : Entity) (position fresh : String) (selected : Option (List EntityType))
      (d d' : Database T) (o : Outcome) (n : ℕ)
      → apply db a e position fresh none selected d ≡ ok (d', o)
      → e.envelope.revision ≡ some n
      → sync_row a.namespace e.envelope.typ fresh d.pairs ≡ none
      → (ns : Namespace) (typ : EntityType) (l : String) (x : SyncRow) (m : ℕ)
      → sync_row ns typ l d.pairs ≡ some x
      → x.revision ≡ some m
      → (y : SyncRow) × (k : ℕ) × (sync_row ns typ l d'.pairs ≡ some y)
        × (y.revision ≡ some k)
        × (m ≤ k)
  apply-revision e position fresh selected d d' o n h at unused ns typ l x m found held =
      match_effect (apply-Effect db a e position fresh selected d d' o h)
    where
      bound :
          put_sync_row (pair_of a e.envelope e.envelope.typ o.local_id) d.pairs ≡ ok d'.pairs
          → (o.local_id ≡ fresh)
            ⊎ (is_older e.envelope (sync_row a.namespace e.envelope.typ o.local_id d.pairs) ≡ false)
          → keyed ns typ l (pair_of a e.envelope e.envelope.typ o.local_id) ≡ true
          → m ≤ n
      bound put new same =
          let key = keyed_eq ns typ l (pair_of a e.envelope e.envelope.typ o.local_id) same in
          let found = rw (sym key.0, sym key.1, sym key.2) at found in
          elim new [
            | inl made ↦ let there = rw made at found in ground (arith, there, unused)
            | inr newer ↦ not_older e.envelope x m n (rw found at newer) at held
          ]

      match_effect :
          Effect db a e fresh d d' o
          → (y : SyncRow) × (k : ℕ) × (sync_row ns typ l d'.pairs ≡ some y)
            × (y.revision ≡ some k)
            × (m ≤ k)
      match_effect (leaves kept why) = (x, m, rw kept found, held, omega arith)
      match_effect (writes put new) =
          let r = pair_of a e.envelope e.envelope.typ o.local_id in
          let now = sync_row-put_sync_row r d.pairs d'.pairs put ns typ l in
          elim (Bool-cases (keyed ns typ l r)) [
            | inl same ↦ (r, n, rw same at now, at, bound put new same)
            | inr other ↦ (x, m, (rw other at now) ∙ found, held, omega arith)
          ]
