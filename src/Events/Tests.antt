-- ===== src/Events/Tests.antt =====
-- Two subscribers and two events of a type.
use aws_advanced_go_wrapper.Base.{ℕ, ◌≡◌, refl, true, false, List, [], ◌∷◌, string_comparable}
use aws_advanced_go_wrapper.Events.{
  Event, member, new_batching_event_publisher, publish, send_pending_events,
}
use aws_advanced_go_wrapper.Events.Delivery.{
  Call, subscribes, unsubscribes, run, wants, receivers, publish-wants, publish_drops_earlier,
}

abbrev stop_event : Event
stop_event = record { type_name = "MonitorStop"; is_immediate_delivery = true; payload = 1 }

abbrev access : ℕ → Event
access key = record { type_name = "DataAccess"; is_immediate_delivery = false; payload = key }

-- Newest first.
abbrev history : List Call
history =
    unsubscribes 2 ("DataAccess" ∷ [])
    ∷ subscribes 2 ("MonitorStop" ∷ "DataAccess" ∷ [])
    ∷ subscribes 1 ("DataAccess" ∷ [])
    ∷ []

publish-wants_example :
    member 2 (receivers (publish stop_event (run history)).1) ≡ wants 2 "MonitorStop" history
publish-wants_example = publish-wants history stop_event 2 refl

wants_test : wants 2 "MonitorStop" history ≡ true
wants_test = refl

publish_drops_earlier_example :
    send_pending_events (publish (access 8) (publish (access 7) new_batching_event_publisher).0).0
    ≡ send_pending_events (publish (access 8) new_batching_event_publisher).0
publish_drops_earlier_example =
    publish_drops_earlier (access 7) (access 8) new_batching_event_publisher refl refl refl
