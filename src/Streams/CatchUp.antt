-- ===== src/Streams/CatchUp.antt =====
-- What a catch-up holds: catchUp of reference-client/internal/testrouter/streams.go.
use masterdata_sync_working.Prelude.{
  ℕ, String, Bool, ◌&&◌, not, List, [], ◌∷◌, any, any-sort, any-keep, any-append, any-map, any_ext,
  any_none, sym, map, ◌==◌, ltb, leb, str_eq, if◌then◌else◌, ◌≡◌, ◌∙◌, refl, arith, Bool-cases, inl,
  inr,
}
use masterdata_sync_working.Platform.{Platform}
use masterdata_sync_working.Model.{Object, Endpoint}
use masterdata_sync_working.Hub.{Frame, masterdata_changed, masterdata_deactivated}
use masterdata_sync_working.Store.{Store}
use masterdata_sync_working.Deliver.{entitled, recipients, frame_for}
use masterdata_sync_working.Deliver.Fanout.{recipients_lem}
use masterdata_sync_working.Streams.{
  object_before, sorted_objects, object_frames, catch_up_recipients, catch_up_event,
}

module _ (p : Platform) (s : Store) (app_id : String) (from : ℕ) where
  -- Whether an object is restated to an endpoint.
  abbrev pub restated : Object → Endpoint → Bool
  restated o ep =
      ltb from o.seq
      && (str_eq ep.app_id app_id && (not (ep.id == o.source_endpoint_id) && entitled ep o))

  abbrev pub frame_of : Object → Endpoint → Frame
  frame_of o ep =
      frame_for p s o (if o.active then masterdata_changed else masterdata_deactivated) ep

  one_object :
      (q : Frame → Bool) (o : Object)
      → any q (
          map
            (frame_for p s o (catch_up_event p s app_id from o))
            (if leb o.seq from then [] else catch_up_recipients p s app_id from o))
        ≡ any (λ (ep : Endpoint). q (frame_of o ep) && restated o ep) s.endpoints
  unfolding catch_up_recipients catch_up_event
  one_object q o = elim (Bool-cases (leb o.seq from)) [
    | inl old ↦ rw old (sym (any_none _ s.endpoints (λ ep. ground arith)))
    | inr new ↦ rw new (
        any-map q (frame_for p s o (catch_up_event p s app_id from o))
          (catch_up_recipients p s app_id from o)
        ∙ any-keep (λ ep. q (frame_of o ep)) (λ (ep : Endpoint). str_eq ep.app_id app_id)
            (recipients p s o o.source_endpoint_id)
        ∙ recipients_lem p s o o.source_endpoint_id
            (λ ep. q (frame_of o ep) && str_eq ep.app_id app_id)
        ∙ any_ext _ _ s.endpoints (λ ep. ground arith))
  ]

  any-object_frames :
      (q : Frame → Bool) (os : List Object)
      → any q (object_frames p s app_id from os)
        ≡ any
            (λ (o : Object).
              any (λ (ep : Endpoint). q (frame_of o ep) && restated o ep) s.endpoints)
            os
  unfolding object_frames
  any-object_frames q [] = refl
  any-object_frames q (o ∷ os) =
      any-append q
        (map (frame_for p s o (catch_up_event p s app_id from o))
          (if leb o.seq from then [] else catch_up_recipients p s app_id from o))
        (object_frames p s app_id from os)
      ∙ ground (arith, one_object q o, any-object_frames q os)

  -- The object frames of a catch-up are those of the objects that changed above the position, one to
  -- each of the application's endpoints that is entitled to the object and did not write its current
  -- revision: whatever is asked of a frame, some frame meets it exactly when one of these does.
  pub any-catch_up_objects :
      (q : Frame → Bool)
      → any q (object_frames p s app_id from (sorted_objects s.objects))
        ≡ any
            (λ (o : Object).
              any (λ (ep : Endpoint). q (frame_of o ep) && restated o ep) s.endpoints)
            s.objects
  unfolding sorted_objects
  any-catch_up_objects q =
      any-object_frames q (sorted_objects s.objects) ∙ any-sort object_before _ s.objects
