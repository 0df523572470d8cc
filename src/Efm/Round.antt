-- ===== src/Efm/Round.antt =====
-- awssql/plugins/efm/host_monitor.go and the connection states of host_monitoring_service.go: how
-- a round of the monitor treats the connections that are in use. A weak pointer to a state is a
-- number, and the store says what it still points to; a state's own weak pointer to its connection
-- is `none` when it was cleared or the connection is gone.
pub mod Laws
use aws_advanced_go_wrapper.Base.{
  ℕ, suc, ◌+◌, nat_comparable, Bool, true, false, not, ◌&&◌, List, [], ◌∷◌, ◌++◌, Option, none,
  some, nat_beq, ltb, if◌then◌else◌, is_some, to_list,
}
use aws_advanced_go_wrapper.Base.Dict.{Dict, filter}
use aws_advanced_go_wrapper.Util.RwQueue.{RwQueue, new, enqueue, is_empty}
use aws_advanced_go_wrapper.Util.RwMap.{RwMap, put, process_and_remove_if}

pub record ConnectionState : Type 0 where
  pub host_unhealthy : Bool
  pub conn : Option ℕ

pub new_connection_state : ℕ → ConnectionState
new_connection_state conn = record { host_unhealthy = false; conn = some conn }

unfoldable pub set_host_unhealthy : Bool → ConnectionState → ConnectionState
set_host_unhealthy b s = record s { host_unhealthy = b }

unfoldable pub set_inactive : ConnectionState → ConnectionState
set_inactive s = record s { conn = none }

unfoldable pub should_abort : ConnectionState → Bool
should_abort s = s.host_unhealthy && is_some s.conn

unfoldable pub is_active : ConnectionState → Bool
is_active s = is_some s.conn

abbrev pub Store : Type 0
Store = ℕ → Option ConnectionState

abbrev pub write : ℕ → ConnectionState → Store → Store
write ref s store r = if nat_beq r ref then some s else store r

-- What a pass over the queue has done so far: the states kept for the next round, the connections
-- closed, in order, the store, and what the pass left on the queue.
pub record Pass : Type 0 where
  pub kept : RwQueue ℕ
  pub aborted : List ℕ
  pub store : Store
  pub left : List ℕ

-- One state out of the queue.
visit : Bool → ℕ → Option ConnectionState → Pass → Pass
unfolding set_host_unhealthy set_inactive is_active
visit unhealthy ref none p = p
visit unhealthy ref (some s) p =
    if unhealthy
    then record p {
      aborted = p.aborted ++ to_list s.conn;
      store = write ref (set_inactive (set_host_unhealthy true s)) p.store;
    }
    else if is_active s
    then record p { kept = enqueue ref p.kept }
    else p

-- The loop that empties the queue. `stopped i` is what `isStopped` says at the i-th state, which is
-- off the queue by then; the health of the host does not change during a pass.
pass : (ℕ → Bool) → ℕ → Bool → List ℕ → Pass → Pass
unfolding visit
pass stopped i unhealthy [] p = p
pass stopped i unhealthy (ref ∷ rest) p =
    let next = pass stopped (suc i) unhealthy rest (visit unhealthy ref (p.store ref) p) in
    if stopped i then record p { left = rest } else next

-- The queue and the store after a round, the connections closed, and what stood on the old queue
-- when the new one took its place.
pub record Round : Type 0 where
  pub active : RwQueue ℕ
  pub aborted : List ℕ
  pub store : Store
  pub dropped : List ℕ

enqueue_all : List ℕ → RwQueue ℕ → RwQueue ℕ
unfolding enqueue
enqueue_all [] q = q
enqueue_all (ref ∷ refs) q = enqueue_all refs (enqueue ref q)

-- `newStateRun` may add to the queue at any time: `early` before the last `Dequeue` of the pass,
-- `late` between it and the assignment of the new queue.
unfoldable pub round : (ℕ → Bool) → Bool → List ℕ → List ℕ → RwQueue ℕ → Store → Round
unfolding pass new enqueue_all
round stopped unhealthy early late active store =
    let p =
      pass stopped 0 unhealthy (enqueue_all early active).items
        (record { kept = new; aborted = []; store = store; left = [] }) in
    record {
      active = p.kept;
      aborted = p.aborted;
      store = p.store;
      dropped = (enqueue_all late (record { items = p.left })).items;
    }

-- `StartMonitoring` notes the state under the time at which its monitoring is to begin. Two states
-- of the same nanosecond share a key, and the later one takes it.
unfoldable pub start_monitoring : ℕ → ℕ → ℕ → RwMap ℕ (List ℕ) → RwMap ℕ (List ℕ)
unfolding put
start_monitoring now detection_time ref states = (put (now + detection_time) (ref ∷ []) states).0

add_active : ℕ → Option ConnectionState → RwQueue ℕ → RwQueue ℕ
unfolding is_active
add_active ref none q = q
add_active ref (some s) q = if is_active s then enqueue ref q else q

enqueue_active : Store → List ℕ → RwQueue ℕ → RwQueue ℕ
unfolding add_active
enqueue_active store [] q = q
enqueue_active store (ref ∷ refs) q = enqueue_active store refs (add_active ref (store ref) q)

enqueue_entries : Store → Dict ℕ (List ℕ) → RwQueue ℕ → RwQueue ℕ
unfolding enqueue_active
enqueue_entries store [] q = q
enqueue_entries store ((time, refs) ∷ rest) q =
    enqueue_entries store rest (enqueue_active store refs q)

-- One round of `newStateRun`.
unfoldable pub new_state_round :
    ℕ → Store → RwMap ℕ (List ℕ) → RwQueue ℕ → RwMap ℕ (List ℕ) × RwQueue ℕ
unfolding process_and_remove_if enqueue_entries
new_state_round now store states active =
    let (due, states', gone) = process_and_remove_if (λ time. ltb time now) states in
    (states', enqueue_entries store due active)
