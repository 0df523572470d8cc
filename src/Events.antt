-- ===== src/Events.antt =====
-- awssql/services/events.go: the batching event publisher. A subscriber is a number; a set of
-- subscribers is a list without repeats, and the set that the source changes in place is written
-- back to the map. What is delivered is recorded in order.
pub mod Delivery
mod Tests
use aws_advanced_go_wrapper.Base.{
  ℕ, Bool, true, false, not, ◌||◌, List, [], ◌∷◌, ◌++◌, map, Option, none, some, String, nat_beq,
  keep, string_comparable, if◌then◌else◌,
}
use aws_advanced_go_wrapper.Base.Dict.{Dict}
use aws_advanced_go_wrapper.Util.RwMap.{
  RwMap, new, put, get, compute_if_absent, remove, get_all_entries, clear,
}

pub record Event : Type 0 where
  pub type_name : String
  pub is_immediate_delivery : Bool
  pub payload : ℕ

pub record Publisher : Type 0 where
  pub subscribers : RwMap String (List ℕ)
  pub pending_events : RwMap String Event

unfoldable pub new_batching_event_publisher : Publisher
unfolding new
new_batching_event_publisher = record { subscribers = new; pending_events = new }

abbrev pub member : ℕ → List ℕ → Bool
member s [] = false
member s (x ∷ xs) = nat_beq s x || member s xs

abbrev pub add : ℕ → List ℕ → List ℕ
add s set = if member s set then set else s ∷ set

abbrev pub drop_subscriber : ℕ → List ℕ → List ℕ
drop_subscriber s set = keep (λ x. not (nat_beq s x)) set

abbrev set_is_empty : List ℕ → Bool
set_is_empty [] = true
set_is_empty (x ∷ xs) = false

subscribe_one : ℕ → String → Publisher → Publisher
unfolding compute_if_absent put
subscribe_one s name p =
    let (set, m) = compute_if_absent name [] p.subscribers in
    record p { subscribers = (put name (add s set) m).0 }

unfoldable pub subscribe : ℕ → List String → Publisher → Publisher
unfolding subscribe_one
subscribe s [] p = p
subscribe s (name ∷ names) p = subscribe s names (subscribe_one s name p)

remove_from : ℕ → String → Option (List ℕ) → Publisher → Publisher
unfolding put remove
remove_from s name none p = p
remove_from s name (some set) p =
    let rest = drop_subscriber s set in
    let m = (put name rest p.subscribers).0 in
    record p { subscribers = if set_is_empty rest then (remove name m).0 else m }

unsubscribe_one : ℕ → String → Publisher → Publisher
unfolding remove_from get
unsubscribe_one s name p = remove_from s name (get name p.subscribers) p

unfoldable pub unsubscribe : ℕ → List String → Publisher → Publisher
unfolding unsubscribe_one
unsubscribe s [] p = p
unsubscribe s (name ∷ names) p = unsubscribe s names (unsubscribe_one s name p)

abbrev pub or_empty : Option (List ℕ) → List ℕ
or_empty none = []
or_empty (some set) = set

-- Who gets the event.
unfoldable pub deliver_event : Event → Publisher → List (ℕ × Event)
unfolding get
deliver_event event p = map (λ s. (s, event)) (or_empty (get event.type_name p.subscribers))

unfoldable pub publish : Event → Publisher → Publisher × List (ℕ × Event)
unfolding deliver_event put
publish event p =
    if event.is_immediate_delivery
    then (p, deliver_event event p)
    else (record p { pending_events = (put event.type_name event p.pending_events).0 }, [])

deliver_all : Dict String Event → Publisher → List (ℕ × Event)
unfolding deliver_event
deliver_all [] p = []
deliver_all ((name, event) ∷ rest) p = deliver_event event p ++ deliver_all rest p

unfoldable pub send_pending_events : Publisher → Publisher × List (ℕ × Event)
unfolding deliver_all get_all_entries clear
send_pending_events p =
    let events = get_all_entries p.pending_events in
    let p' = record p { pending_events = (clear p.pending_events).0 } in (p', deliver_all events p')
