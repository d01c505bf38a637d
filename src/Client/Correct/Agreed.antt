-- ===== src/Client/Correct/Agreed.antt =====
-- A correction on both sides: correct of reference-client/internal/testrouter/ssot.go, and Correct of
-- reference-client/internal/platform/sync/outbound.go.
use masterdata_sync_working.Prelude.{
  ℕ, String, true, false, Option, none, some, List, [], ◌∷◌, str_eq, eq_iff, str_eq_refl,
  if◌then◌else◌, ◌≡◌, refl, sym, ap, ◌∙◌, arith, Bool-cases, Option-cases, inl, inr,
}
use masterdata_sync_working.Failure.{ok, >>=-eq-ok}
use masterdata_sync_working.Model.{EntityType, Endpoint}
use masterdata_sync_working.Store.{Store}
use masterdata_sync_working.Store.Lookup.{same_type_refl}
use masterdata_sync_working.Mapping.{Correction, lists, correct}
use masterdata_sync_working.Mapping.Invariant.{IsConsistent}
use masterdata_sync_working.Mapping.Corrects.Checks.{Distinct, check_listed-Distinct}
use masterdata_sync_working.Mapping.Corrects.Drops.{corrected, corrected_unlisted}
use masterdata_sync_working.Mapping.Corrects.Result.{
  correct-local, corrected_parts, corrected_dropped,
}
use masterdata_sync_working.Client.Pairs.{
  Namespace, SyncRow, keyed, sync_row, drop_sync_row, put_sync_row,
}
use masterdata_sync_working.Client.Pairs.Keys.{same_key, sync_row-drop_sync_row}
use masterdata_sync_working.Client.Pairs.View.{sync_row-put_sync_row}
use masterdata_sync_working.Client.Correct.{
  drop_listed_rows, corrected_row, put_listed_rows, correct_rows,
}

abbrev pub id_of : Option SyncRow → Option ℕ
id_of none = none
id_of (some row) = row.agrirouter_id

-- The canonical identifier that an endpoint has for a record.
abbrev pub held_id : Namespace → EntityType → String → List SyncRow → Option ℕ
held_id ns typ l rows = id_of (sync_row ns typ l rows)

module _ (ns : Namespace) (typ : EntityType) (l : String) where
  held_id-drop :
      (k : String) (rows : List SyncRow)
      → held_id ns typ l (drop_sync_row ns typ k rows)
        ≡ (if str_eq k l then none else held_id ns typ l rows)
  unfolding same_key
  held_id-drop k rows =
      let e = sync_row-drop_sync_row ns typ k rows ns typ l in
      rw e (ground (arith, str_eq_refl ns.external_id, same_type_refl typ))

  held_id-drop_listed_rows :
      (es : List Correction) (rows : List SyncRow)
      → held_id ns typ l (drop_listed_rows ns typ es rows)
        ≡ (if lists l es then none else held_id ns typ l rows)
  unfolding drop_listed_rows lists
  held_id-drop_listed_rows [] rows = refl
  held_id-drop_listed_rows (e ∷ es) rows =
      let here = held_id-drop e.local_id rows in
      held_id-drop_listed_rows es (drop_sync_row ns typ e.local_id rows) ∙ ground (arith, here)

  held_id-put :
      (k : String) (id : ℕ) (rows after : List SyncRow)
      → put_sync_row (corrected_row ns typ k id) rows ≡ ok after
      → held_id ns typ l after ≡ (if str_eq k l then some id else held_id ns typ l rows)
  unfolding keyed
  held_id-put k id rows after h =
      let e = sync_row-put_sync_row (corrected_row ns typ k id) rows after h ns typ l in
      rw e (ground (arith, str_eq_refl ns.external_id, same_type_refl typ))

  -- Where no listed record has a row, each ends as its entry says.
  held_id-put_listed_rows :
      (es : List Correction) (rows after : List SyncRow)
      → put_listed_rows ns typ es rows ≡ ok after
      → Distinct es
      → (lists l es ≡ true → held_id ns typ l rows ≡ none)
      → held_id ns typ l after ≡ corrected l es (held_id ns typ l rows)
  unfolding put_listed_rows lists
  held_id-put_listed_rows [] rows after h d free = ap (held_id ns typ l) (sym (ok_inj h))
    where
      ok_inj : {a b : List SyncRow} → ok a ≡ ok b → a ≡ b
      ok_inj e = cc
  held_id-put_listed_rows (e ∷ es) rows after h d free = elim (Option-cases e.target) [
    | inl to_none ↦
        let later =
          held_id-put_listed_rows es rows after (rw to_none at h) d.2
            (λ among. free (ground (arith, among))) in
        elim (Bool-cases (str_eq e.local_id l)) [
          | inl here ↦
              let o = free (ground (arith, here)) in
              let apart : lists l es ≡ false = rw (sym ((eq_iff e.local_id l).0 here)) d.0 in
              rw (here, to_none) (later ∙ corrected_unlisted l es _ apart ∙ o)
          | inr other ↦ rw other later
        ]
    | inr (id, to) ↦
        let (mid, put, rest) =
          >>=-eq-ok (λ rows. put_listed_rows ns typ es rows)
            (put_sync_row (corrected_row ns typ e.local_id id) rows) (rw to at h) in
        let now = held_id-put e.local_id id rows mid put in
        elim (Bool-cases (str_eq e.local_id l)) [
          | inl here ↦
              let apart : lists l es ≡ false = rw (sym ((eq_iff e.local_id l).0 here)) d.0 in
              let later =
                held_id-put_listed_rows es mid after rest d.2
                  (λ among. ground (arith, among, apart)) in
              rw (here, to) (later ∙ corrected_unlisted l es _ apart ∙ now ∙ (rw here refl))
          | inr other ↦
              let now : held_id ns typ l mid ≡ held_id ns typ l rows = now ∙ (rw other refl) in
              let later =
                held_id-put_listed_rows es mid after rest d.2
                  (λ among. now ∙ free (ground (arith, among))) in
              rw other (later ∙ ap (corrected l es) now)
        ]
  ]

-- Where an endpoint and the router agree on a type's pairs, they agree again once the router has
-- accepted a correction of that type and the endpoint has rewritten its rows, through any swap.
pub correct_rows-agrees :
    (ep : Endpoint) (ns : Namespace) (typ : EntityType) (entries : List Correction) (s t : Store)
    (rows after : List SyncRow)
    → IsConsistent s
    → correct ep typ entries s ≡ ok t
    → correct_rows ns typ entries rows ≡ ok after
    → ((l : String) → held_id ns typ l rows ≡ s.local ep.id typ l)
    → (l : String) → held_id ns typ l after ≡ t.local ep.id typ l
unfolding correct_rows
correct_rows-agrees ep ns typ entries s t rows after inv accepted h agree l =
    let parts = corrected_parts ep typ entries s inv t accepted in
    let router = correct-local ep typ entries s inv t ep.id typ l accepted in
    let dropped = held_id-drop_listed_rows ns typ l entries rows in
    let ours =
      held_id-put_listed_rows ns typ l entries (drop_listed_rows ns typ entries rows) after h
        (check_listed-Distinct [] entries parts.0) (λ among. dropped ∙ (rw among refl)) in
    let alike = corrected_dropped ep typ entries s inv l entries (held_id ns typ l rows) in
    ours
    ∙ ap (corrected l entries) dropped
    ∙ alike
    ∙ ap (corrected l entries) (agree l)
    ∙ sym (router ∙ ground (arith, same_type_refl typ))
