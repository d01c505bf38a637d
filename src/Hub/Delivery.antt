-- ===== src/Hub/Delivery.antt =====
-- The hub over time: subscribe, unsubscribe, publish and the receive of
-- reference-client/internal/testrouter/streams.go, in any order.
use masterdata_sync_working.Prelude.{
  ℕ, suc, String, Bool, true, List, [], ◌∷◌, ◌++◌, length, all, keep, leb, ◌≡◌, refl, arith,
}
use masterdata_sync_working.Hub.{
  Frame, Subscription, Hub, buffer, subscribe, unsubscribe, offer, publish, receive,
}

-- One operation on the hub.
pub data HubStep : Hub → Hub → Type 0 where
  subscribes :
      {hub : Hub} (app_id : String) (channel : ℕ) → HubStep hub (subscribe app_id channel hub)
  unsubscribes :
      {hub : Hub} (app_id : String) (channel : ℕ) → HubStep hub (unsubscribe app_id channel hub)
  publishes : {hub : Hub} (app_id : String) (f : Frame) → HubStep hub (publish app_id f hub)
  receives : {hub : Hub} (channel : ℕ) → HubStep hub (receive channel hub).1

-- The hubs that operations lead to from the empty one.
pub data HubReachable : Hub → Type 0 where
  no_subscriptions : HubReachable []
  operated : {hub next : Hub} → HubReachable hub → HubStep hub next → HubReachable next

abbrev within_buffer : Subscription → Bool
within_buffer s = leb (length s.queue) buffer

length-snoc : (fs : List Frame) (f : Frame) → length (fs ++ f ∷ []) ≡ suc (length fs)
length-snoc [] f = refl
length-snoc (x ∷ fs) f = ground (arith, length-snoc fs f)

offer_within :
    (f : Frame) (s : Subscription) → within_buffer s ≡ true → within_buffer (offer f s) ≡ true
unfolding offer
offer_within f s h = ground (arith, length-snoc s.queue f)

publish_within :
    (app_id : String) (f : Frame) (hub : Hub)
    → all within_buffer hub ≡ true
    → all within_buffer (publish app_id f hub) ≡ true
unfolding publish
publish_within app_id f [] h = refl
publish_within app_id f (s ∷ hub) h = ground (arith, publish_within app_id f hub, offer_within f s)

unsubscribe_within :
    (q : Subscription → Bool) (hub : Hub)
    → all within_buffer hub ≡ true
    → all within_buffer (keep q hub) ≡ true
unsubscribe_within q [] h = refl
unsubscribe_within q (s ∷ hub) h = ground (arith, unsubscribe_within q hub)

receive_within :
    (channel : ℕ) (hub : Hub)
    → all within_buffer hub ≡ true
    → all within_buffer (receive channel hub).1 ≡ true
unfolding receive
receive_within channel [] h = refl
receive_within channel (s ∷ hub) h = at s.queue refl (receive_within channel hub)
  where
    at :
        (fs : List Frame)
        → s.queue ≡ fs
        → (all within_buffer hub ≡ true → all within_buffer (receive channel hub).1 ≡ true)
        → all within_buffer (receive channel (s ∷ hub)).1 ≡ true
    at [] e rest = ground arith
    at (f ∷ fs) e rest = ground arith

-- In every reachable hub, each subscription's queue holds at most the 256 frames of its buffer.
pub HubReachable-buffer :
    (hub : Hub)
    → HubReachable hub
    → all (λ (s : Subscription). leb (length s.queue) buffer) hub ≡ true
unfolding subscribe unsubscribe
HubReachable-buffer _ no_subscriptions = refl
HubReachable-buffer _ (operated before step) = at step (HubReachable-buffer _ before)
  where
    at :
        {hub next : Hub}
        → HubStep hub next
        → all within_buffer hub ≡ true
        → all within_buffer next ≡ true
    at (subscribes app_id channel) h = ground arith
    at {hub} (unsubscribes app_id channel) h = unsubscribe_within _ hub h
    at {hub} (publishes app_id f) h = publish_within app_id f hub h
    at {hub} (receives channel) h = receive_within channel hub h
