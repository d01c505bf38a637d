-- ===== src/Deliver/Fanout.antt =====
-- Who a change is delivered to: recipients and entitled of
-- reference-client/internal/testrouter/ssot.go.
use masterdata_sync_working.Prelude.{ℕ, Bool, ◌&&◌, not, any, any-sort, any-keep, ◌==◌, ◌≡◌, ◌∙◌}
use masterdata_sync_working.Platform.{Platform}
use masterdata_sync_working.Model.{Object, Endpoint}
use masterdata_sync_working.Store.{Store}
use masterdata_sync_working.Deliver.{entitled, recipients, id_before}

pub recipients_lem :
    (p : Platform) (s : Store) (o : Object) (exclude : ℕ) (q : Endpoint → Bool)
    → any q (recipients p s o exclude)
      ≡ any (λ (ep : Endpoint). q ep && (not (ep.id == exclude) && entitled ep o)) s.endpoints
unfolding recipients
recipients_lem p s o exclude q =
    any-sort (id_before p) q _
    ∙ any-keep q (λ (ep : Endpoint). not (ep.id == exclude) && entitled ep o) s.endpoints

-- An endpoint that a change of an object may be delivered to.
abbrev pub addressed : Object → ℕ → Endpoint → Bool
addressed o exclude ep = not (ep.id == exclude) && (ep.tenant_id == o.tenant_id && ep.toggles o.typ)

-- The recipients of an object are the endpoints of its tenant that are opted into its type, less
-- the one excluded: whatever is asked of a recipient, some recipient meets it exactly when some
-- such endpoint does.
pub any-recipients :
    (p : Platform) (s : Store) (o : Object) (exclude : ℕ) (q : Endpoint → Bool)
    → any q (recipients p s o exclude)
      ≡ any (λ (ep : Endpoint). q ep && addressed o exclude ep) s.endpoints
unfolding entitled
any-recipients p s o exclude q = recipients_lem p s o exclude q
