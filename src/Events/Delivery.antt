-- ===== src/Events/Delivery.antt =====
-- Who gets an event of events.go, over any history of subscriptions.
use aws_advanced_go_wrapper.Base.{
  ℕ, ◌≡◌, refl, sym, ap, ◌∙◌, Bool, true, false, not, ◌&&◌, ◌||◌, List, [], ◌∷◌, map, Option, none,
  some, String, nat_beq, nat_beq_iff, string_comparable, ◌==◌, ==_refl, arith, if◌then◌else◌,
  Bool-cases, Option-cases, if_true, if_false, inl, inr,
}
use aws_advanced_go_wrapper.Base.Dict.{Dict, lookup, insert, lookup-insert, lookup-delete}
use aws_advanced_go_wrapper.Util.RwMap.{RwMap, new, put, get, compute_if_absent, remove}
use aws_advanced_go_wrapper.Events.{
  Event, Publisher, new_batching_event_publisher, member, add, drop_subscriber, subscribe,
  subscribe_one, unsubscribe, unsubscribe_one, remove_from, or_empty, deliver_event, publish,
  send_pending_events, set_is_empty,
}

member-add : (s x : ℕ) (set : List ℕ) → member x (add s set) ≡ (nat_beq x s || member x set)
member-add s x set = elim (Bool-cases (member s set)) [
  | inl e ↦ elim (Bool-cases (nat_beq x s)) [
    | inl f ↦ ground (arith, ap (λ y. member y set) ((nat_beq_iff x s).0 f))
    | inr f ↦ ground arith
  ]
  | inr e ↦ ground arith
]

member-drop :
    (s x : ℕ) (set : List ℕ)
    → member x (drop_subscriber s set) ≡ (not (nat_beq x s) && member x set)
member-drop s x [] = ground arith
member-drop s x (y ∷ set) =
    ground (arith, member-drop s x set, nat_beq_iff s y, nat_beq_iff x y, nat_beq_iff x s)

-- The subscribers of a type.
abbrev pub of_type : String → Publisher → List ℕ
of_type name p = or_empty (lookup name p.subscribers.cache)

lookup-same :
    {V : Type 0} (name other : String) (m : Dict String V)
    → (name == other) ≡ true
    → lookup other m ≡ lookup name m
lookup-same name other m h = ap (λ k. lookup k m) (sym ((string_comparable.eqb_iff name other).0 h))

of_type-insert :
    (name other : String) (set : List ℕ) (m : Dict String (List ℕ))
    → or_empty (lookup other (insert name set m))
      ≡ (if name == other then set else or_empty (lookup other m))
of_type-insert name other set m =
    ap or_empty (lookup-insert name other set m)
    ∙ elim (Bool-cases (name == other)) [ inl h ↦ ground arith | inr h ↦ ground arith ]

subscribe_one-type :
    (s : ℕ) (name other : String) (p : Publisher)
    → of_type other (subscribe_one s name p)
      ≡ (if name == other then add s (of_type name p) else of_type other p)
unfolding subscribe_one compute_if_absent put
subscribe_one-type s name other p = elim (Option-cases (lookup name p.subscribers.cache)) [
  | inl e ↦ ground (
    arith,
    of_type-insert name other (add s []) (insert name [] p.subscribers.cache),
    of_type-insert name other [] p.subscribers.cache,
  )
  | inr (set, e) ↦ ground (arith, of_type-insert name other (add s set) p.subscribers.cache)
]

subscribe_one-member :
    (s x : ℕ) (name other : String) (p : Publisher)
    → member x (of_type other (subscribe_one s name p))
      ≡ ((name == other && nat_beq x s) || member x (of_type other p))
subscribe_one-member s x name other p =
    ap (member x) (subscribe_one-type s name other p) ∙ elim (Bool-cases (name == other)) [
      | inl h ↦
          ground
            (arith, member-add s x (of_type name p), lookup-same name other p.subscribers.cache h)
      | inr h ↦ ground arith
    ]

of_type-remove :
    (name other : String) (m : RwMap String (List ℕ))
    → or_empty (lookup other (remove name m).0.cache)
      ≡ (if name == other then [] else or_empty (lookup other m.cache))
unfolding remove
of_type-remove name other m = elim (Option-cases (lookup name m.cache)) [
  | inl e ↦ elim (Bool-cases (name == other)) [
    | inl h ↦ ground (arith, lookup-same name other m.cache h)
    | inr h ↦ ground arith
  ]
  | inr (set, e) ↦ ground (arith, lookup-delete name other m.cache)
]

empty_set : (set : List ℕ) → set_is_empty set ≡ true → set ≡ []
empty_set [] h = refl
empty_set (x ∷ set) h = ground arith

remove_from-type :
    (s : ℕ) (name other : String) (set : List ℕ) (p : Publisher)
    → of_type other (remove_from s name (some set) p)
      ≡ (if name == other then drop_subscriber s set else of_type other p)
unfolding remove_from put
remove_from-type s name other set p = elim (Bool-cases (set_is_empty (drop_subscriber s set))) [
  | inl h ↦ ground (
    arith,
    empty_set (drop_subscriber s set) h,
    of_type-remove name other
        (record p.subscribers { cache = insert name (drop_subscriber s set) p.subscribers.cache }),
    of_type-insert name other (drop_subscriber s set) p.subscribers.cache,
  )
  | inr h ↦ ground (arith, of_type-insert name other (drop_subscriber s set) p.subscribers.cache)
]

remove_from-member :
    (s x : ℕ) (name other : String) (o : Option (List ℕ)) (p : Publisher)
    → lookup name p.subscribers.cache ≡ o
    → member x (of_type other (remove_from s name o p))
      ≡ (not (name == other && nat_beq x s) && member x (of_type other p))
unfolding remove_from
remove_from-member s x name other none p e = elim (Bool-cases (name == other)) [
  | inl h ↦
      ground
        (arith, ap (λ o. member x (or_empty o)) (lookup-same name other p.subscribers.cache h ∙ e))
  | inr h ↦ ground arith
]
remove_from-member s x name other (some set) p e =
    ap (member x) (remove_from-type s name other set p) ∙ elim (Bool-cases (name == other)) [
      | inl h ↦ ground (
        arith,
        member-drop s x set,
        ap (λ o. member x (or_empty o)) (lookup-same name other p.subscribers.cache h ∙ e),
      )
      | inr h ↦ ground arith
    ]

abbrev pub any_equal : String → List String → Bool
any_equal other [] = false
any_equal other (name ∷ names) = name == other || any_equal other names

subscribe-member :
    (s x : ℕ) (names : List String) (other : String) (p : Publisher)
    → member x (of_type other (subscribe s names p))
      ≡ ((any_equal other names && nat_beq x s) || member x (of_type other p))
unfolding subscribe
subscribe-member s x [] other p = refl
subscribe-member s x (name ∷ names) other p =
    subscribe-member s x names other (subscribe_one s name p)
    ∙ ground (arith, subscribe_one-member s x name other p)

unsubscribe-member :
    (s x : ℕ) (names : List String) (other : String) (p : Publisher)
    → member x (of_type other (unsubscribe s names p))
      ≡ (not (any_equal other names && nat_beq x s) && member x (of_type other p))
unfolding unsubscribe unsubscribe_one get
unsubscribe-member s x [] other p = refl
unsubscribe-member s x (name ∷ names) other p =
    unsubscribe-member s x names other (unsubscribe_one s name p)
    ∙ ground (arith, remove_from-member s x name other (lookup name p.subscribers.cache) p refl)

pub data Call : Type 0 where
  subscribes unsubscribes : ℕ → List String → Call

-- The publisher after a history of calls, newest first.
pub run : List Call → Publisher
run [] = new_batching_event_publisher
run (subscribes s names ∷ older) = subscribe s names (run older)
run (unsubscribes s names ∷ older) = unsubscribe s names (run older)

-- Whether the newest call of the subscriber that names the type is a subscription.
abbrev pub wants : ℕ → String → List Call → Bool
wants x name [] = false
wants x name (subscribes s names ∷ older) =
    if any_equal name names && nat_beq x s then true else wants x name older
wants x name (unsubscribes s names ∷ older) =
    if any_equal name names && nat_beq x s then false else wants x name older

run-wants :
    (calls : List Call) (x : ℕ) (name : String)
    → member x (of_type name (run calls)) ≡ wants x name calls
unfolding run new_batching_event_publisher new lookup
run-wants [] x name = refl
run-wants (subscribes s names ∷ older) x name =
    ground (arith, subscribe-member s x names name (run older), run-wants older x name)
run-wants (unsubscribes s names ∷ older) x name =
    ground (arith, unsubscribe-member s x names name (run older), run-wants older x name)

abbrev pub receivers : List (ℕ × Event) → List ℕ
receivers [] = []
receivers ((s, event) ∷ rest) = s ∷ receivers rest

receivers-map : (event : Event) (set : List ℕ) → receivers (map (λ s. (s, event)) set) ≡ set
receivers-map event [] = refl
receivers-map event (s ∷ set) = ap (◌∷◌ s) (receivers-map event set)

-- After any history of Subscribe and Unsubscribe, an event for immediate delivery reaches exactly
-- those subscribers whose newest call that names its type is a Subscribe.
pub publish-wants :
    (calls : List Call) (event : Event) (x : ℕ)
    → event.is_immediate_delivery ≡ true
    → member x (receivers (publish event (run calls)).1) ≡ wants x event.type_name calls
unfolding publish deliver_event get
publish-wants calls event x h =
    ap (λ (r : Publisher × List (ℕ × Event)). member x (receivers r.1))
      (if_true event.is_immediate_delivery _ _ h)
    ∙ ap (member x) (receivers-map event (of_type event.type_name (run calls)))
    ∙ run-wants calls x event.type_name

insert-insert :
    (name : String) (a b : Event) (m : Dict String Event)
    → insert name b (insert name a m) ≡ insert name b m
unfolding insert
insert-insert name a b [] = ground (arith, ==_refl name)
insert-insert name a b ((k, c) ∷ m) = elim (Bool-cases (k == name)) [
  | inl h ↦ ground (arith, ==_refl name)
  | inr h ↦ ground (arith, insert-insert name a b m)
]

-- The publisher with these events on hold.
with_pending : Publisher → Dict String Event → Publisher
with_pending p m = record p { pending_events = record p.pending_events { cache = m } }

publish_deferred :
    (event : Event) (p : Publisher)
    → event.is_immediate_delivery ≡ false
    → (publish event p).0 ≡ with_pending p (insert event.type_name event p.pending_events.cache)
unfolding publish put with_pending
publish_deferred event p h =
    ap (λ (r : Publisher × List (ℕ × Event)). r.0) (if_false event.is_immediate_delivery _ _ h)

publish_both :
    (first second : Event) (p : Publisher)
    → first.is_immediate_delivery ≡ false
    → second.is_immediate_delivery ≡ false
    → first.type_name ≡ second.type_name
    → (publish second (publish first p).0).0 ≡ (publish second p).0
unfolding with_pending
publish_both first second p h k e =
    let name = second.type_name in
    let held = p.pending_events.cache in
    ap (λ q. (publish second q).0) (publish_deferred first p h)
    ∙ publish_deferred second (with_pending p (insert first.type_name first held)) k
    ∙ ap (with_pending p) (
        ap (λ n. insert name second (insert n first held)) e ∙ insert-insert name first second held)
    ∙ sym (publish_deferred second p k)

-- Of two events of one type that wait for the same batch only the second is kept: what the batch
-- delivers, and the state it leaves, are as if the first had never been published.
pub publish_drops_earlier :
    (first second : Event) (p : Publisher)
    → first.is_immediate_delivery ≡ false
    → second.is_immediate_delivery ≡ false
    → first.type_name ≡ second.type_name
    → send_pending_events (publish second (publish first p).0).0
      ≡ send_pending_events (publish second p).0
publish_drops_earlier first second p h k e =
    ap send_pending_events (publish_both first second p h k e)
