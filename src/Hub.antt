-- ===== src/Hub.antt =====
-- Frames and the hub that fans them out: frame and hub of
-- reference-client/internal/testrouter/streams.go. A channel is its buffer of at most 256 frames.
pub mod Delivery
use masterdata_sync_working.Prelude.{
  ℕ, String, Bool, true, false, ◌&&◌, not, Option, none, some, List, [], ◌∷◌, ◌++◌, ◌==◌, ltb,
  length, str_eq, keep, map, if◌then◌else◌,
}
use masterdata_sync_working.Json.{Value}

pub data Event : Type 0 where
  masterdata_changed masterdata_deactivated caught_up route_changed masterdata_reset : Event

-- One SSE frame: an empty `id` is none, and `entity` is the data.
pub record Frame : Type 0 where
  pub event : Event
  pub id : List ℕ
  pub entity : Option Value

-- A channel that an application subscribed, by its number.
pub record Subscription : Type 0 where
  pub app_id : String
  pub channel : ℕ
  pub queue : List Frame

abbrev pub Hub : Type 0
Hub = List Subscription

abbrev pub buffer : ℕ
buffer = 256

unfoldable pub subscribe : String → ℕ → Hub → Hub
subscribe app_id channel hub = record { app_id = app_id; channel = channel; queue = [] } ∷ hub

unfoldable pub unsubscribe : String → ℕ → Hub → Hub
unsubscribe app_id channel hub =
    keep (λ (s : Subscription). not (str_eq s.app_id app_id && s.channel == channel)) hub

-- A send that does not block: a full buffer drops the frame.
unfoldable pub offer : Frame → Subscription → Subscription
offer f s = if ltb (length s.queue) buffer then record s { queue = s.queue ++ f ∷ [] } else s

unfoldable pub publish : String → Frame → Hub → Hub
unfolding offer
publish app_id f [] = []
publish app_id f (s ∷ hub) =
    (if str_eq s.app_id app_id then offer f s else s) ∷ publish app_id f hub

-- `<-ch`: the receiver takes the oldest frame.
unfoldable pub receive : ℕ → Hub → Option Frame × Hub
receive channel [] = (none, [])
receive channel (s ∷ hub) =
    let rest = receive channel hub in
    if s.channel == channel
    then elim s.queue [ [] ↦ (none, s ∷ hub) | f ∷ fs ↦ (some f, record s { queue = fs } ∷ hub) ]
    else (rest.0, s ∷ rest.1)
