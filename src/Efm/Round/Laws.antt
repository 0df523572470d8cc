-- ===== src/Efm/Round/Laws.antt =====
-- What a round of host_monitor.go does to the connections in use.
use aws_advanced_go_wrapper.Base.{
  ℕ, suc, ◌≡◌, refl, sym, ap, Bool, true, false, ◌||◌, List, [], ◌∷◌, ◌++◌, Option, none, some,
  arith, nat_beq, nat_beq_iff, if◌then◌else◌, is_some, keep, In, inl, inr, append_assoc, append-nil,
  Option-cases, Bool-cases, ◌∙◌, to_list,
}
use aws_advanced_go_wrapper.Util.RwQueue.{RwQueue, new, enqueue}
use aws_advanced_go_wrapper.Efm.Round.{
  ConnectionState, Store, Pass, visit, pass, round, is_active, set_inactive, set_host_unhealthy,
  enqueue_all, new,
}

abbrev pub never : ℕ → Bool
never i = false

-- A reference to a state that is alive and active.
abbrev pub in_use : Store → ℕ → Bool
in_use store ref = elim (store ref) [ none ↦ false | some s ↦ is_some s.conn ]

pass_healthy :
    (i : ℕ) (refs : List ℕ) (p : Pass)
    → pass never i false refs p
      ≡ record p { kept = record { items = p.kept.items ++ keep (in_use p.store) refs } }
unfolding pass visit is_active enqueue
pass_healthy i [] p = rw (append-nil p.kept.items)
pass_healthy i (ref ∷ refs) p = elim (Option-cases (p.store ref)) [
  | inl e ↦ ground (arith, pass_healthy (suc i) refs p)
  | inr (s, e) ↦ elim (Option-cases s.conn) [
    | inl f ↦ ground (arith, pass_healthy (suc i) refs p)
    | inr (x, f) ↦ ground (
      arith,
      pass_healthy (suc i) refs (record p { kept = enqueue ref p.kept }),
      append_assoc p.kept.items (ref ∷ []) (keep (in_use p.store) refs),
    )
  ]
]

items-enqueue_all : (refs : List ℕ) (q : RwQueue ℕ) → (enqueue_all refs q).items ≡ q.items ++ refs
unfolding enqueue_all enqueue
items-enqueue_all [] q = sym (append-nil q.items)
items-enqueue_all (ref ∷ refs) q =
    items-enqueue_all refs (enqueue ref q) ∙ append_assoc q.items (ref ∷ []) refs

-- A round in which the host is healthy and the monitor is not stopped leaves the queue with exactly
-- those states it held, or got before its last state was taken, that are alive and active, in their
-- order; it closes no connection and changes no state. What is put on the queue between the last
-- `Dequeue` and the assignment of the new queue is dropped: it is never monitored.
pub round_healthy :
    (early late : List ℕ) (active : RwQueue ℕ) (store : Store)
    → round never false early late active store ≡ record {
      active = record { items = keep (in_use store) (active.items ++ early) };
      aborted = [];
      store = store;
      dropped = late;
    }
unfolding round new
round_healthy early late active store = rw (
  items-enqueue_all early active,
  pass_healthy 0 (active.items ++ early)
      (record { kept = new; aborted = []; store = store; left = [] }),
  items-enqueue_all late (record { items = [] }),
)

abbrev pub doomed : ConnectionState → ConnectionState
doomed s = record { host_unhealthy = true; conn = none }

abbrev pub has : ℕ → List ℕ → Bool
has r [] = false
has r (x ∷ xs) = nat_beq r x || has r xs

-- What is known of a state after a round of a dead host, when its reference is on the queue.
abbrev pub after : Bool → Option ConnectionState → Option ConnectionState
after b none = none
after b (some s) = if b then some (doomed s) else some s

visit-store :
    (ref : ℕ) (o : Option ConnectionState) (p : Pass) (r : ℕ)
    → p.store ref ≡ o
    → (visit true ref o p).store r ≡ after (nat_beq r ref) (p.store r)
unfolding visit set_inactive set_host_unhealthy
visit-store ref none p r h = ground (arith, nat_beq_iff r ref)
visit-store ref (some s) p r h = ground (arith, nat_beq_iff r ref)

after-after : (a b : Bool) (o : Option ConnectionState) → after a (after b o) ≡ after (b || a) o
after-after a b none = refl
after-after true true (some s) = refl
after-after true false (some s) = refl
after-after false true (some s) = refl
after-after false false (some s) = refl

pass-store :
    (i : ℕ) (refs : List ℕ) (p : Pass) (r : ℕ)
    → (pass never i true refs p).store r ≡ after (has r refs) (p.store r)
unfolding pass
pass-store i [] p r = elim (Option-cases (p.store r)) [ inl e ↦ rw e | inr (s, e) ↦ rw e ]
pass-store i (ref ∷ refs) p r =
    pass-store (suc i) refs (visit true ref (p.store ref) p) r
    ∙ ap (after (has r refs)) (visit-store ref (p.store ref) p r refl)
    ∙ after-after (has r refs) (nat_beq r ref) (p.store r)

pass-kept :
    (i : ℕ) (refs : List ℕ) (p : Pass)
    → ((pass never i true refs p).kept ≡ p.kept) × ((pass never i true refs p).left ≡ p.left)
unfolding pass visit
pass-kept i [] p = (refl, refl)
pass-kept i (ref ∷ refs) p = elim (Option-cases (p.store ref)) [
  | inl e ↦ ground (arith, pass-kept (suc i) refs p)
  | inr (s, e) ↦ ground (arith, pass-kept (suc i) refs (visit true ref (some s) p))
]

In-append_left : (c : ℕ) (xs ys : List ℕ) → In c xs → In c (xs ++ ys)
In-append_left c [] ys h = elim h [ ]
In-append_left c (x ∷ xs) ys (inl e) = inl e
In-append_left c (x ∷ xs) ys (inr h) = inr (In-append_left c xs ys h)

In-append_right : (c : ℕ) (xs ys : List ℕ) → In c ys → In c (xs ++ ys)
In-append_right c [] ys h = h
In-append_right c (x ∷ xs) ys h = inr (In-append_right c xs ys h)

visit-keeps_aborted :
    (ref : ℕ) (o : Option ConnectionState) (p : Pass) (c : ℕ)
    → In c p.aborted
    → In c (visit true ref o p).aborted
unfolding visit
visit-keeps_aborted ref none p c h = h
visit-keeps_aborted ref (some s) p c h = In-append_left c p.aborted (to_list s.conn) h

pass-keeps_aborted :
    (i : ℕ) (refs : List ℕ) (p : Pass) (c : ℕ)
    → In c p.aborted
    → In c (pass never i true refs p).aborted
unfolding pass
pass-keeps_aborted i [] p c h = h
pass-keeps_aborted i (ref ∷ refs) p c h =
    pass-keeps_aborted (suc i) refs (visit true ref (p.store ref) p) c
      (visit-keeps_aborted ref (p.store ref) p c h)

-- The connection of a state that a reference leads to.
abbrev pub conn_of : Option ConnectionState → Option ℕ
conn_of none = none
conn_of (some s) = s.conn

In-to_list : (o : Option ℕ) (c : ℕ) → o ≡ some c → In c (to_list o)
In-to_list none c e = ground arith
In-to_list (some d) c e = ground arith

visit-aborts :
    (ref : ℕ) (o : Option ConnectionState) (p : Pass) (c : ℕ)
    → conn_of o ≡ some c
    → In c (visit true ref o p).aborted
unfolding visit
visit-aborts ref none p c e = ground arith
visit-aborts ref (some s) p c e =
    In-append_right c p.aborted (to_list s.conn) (In-to_list s.conn c e)

conn_of-after :
    (b : Bool) (o : Option ConnectionState) → b ≡ false → conn_of (after b o) ≡ conn_of o
conn_of-after b none e = refl
conn_of-after true (some s) e = ground arith
conn_of-after false (some s) e = refl

-- A connection is among the closed ones once the state of a reference to it was visited.
pass-aborts :
    (i : ℕ) (refs : List ℕ) (p : Pass) (ref c : ℕ)
    → In ref refs
    → conn_of (p.store ref) ≡ some c
    → In c (pass never i true refs p).aborted
unfolding pass
pass-aborts i [] p ref c h e = elim h [ ]
pass-aborts i (x ∷ refs) p ref c (inl h) e =
    pass-keeps_aborted (suc i) refs (visit true x (p.store x) p) c
      (visit-aborts x (p.store x) p c (ap (λ r. conn_of (p.store r)) h ∙ e))
pass-aborts i (x ∷ refs) p ref c (inr h) e = elim (Bool-cases (nat_beq ref x)) [
  | inl g ↦ pass-keeps_aborted (suc i) refs (visit true x (p.store x) p) c (
      visit-aborts x (p.store x) p c
        (ap (λ r. conn_of (p.store r)) (sym ((nat_beq_iff ref x).0 g)) ∙ e))
  | inr g ↦ pass-aborts (suc i) refs (visit true x (p.store x) p) ref c h (
      ap conn_of (visit-store x (p.store x) p ref refl)
      ∙ conn_of-after (nat_beq ref x) (p.store ref) g
      ∙ e)
]

start : Store → Pass
unfolding new
start store = record { kept = new; aborted = []; store = store; left = [] }

-- In a round in which the host is held for dead and the monitor is not stopped, the connection of
-- every state that the queue holds, or gets before its last state is taken, is closed.
pub round_aborts :
    (early late : List ℕ) (active : RwQueue ℕ) (store : Store) (ref c : ℕ)
    → In ref (active.items ++ early)
    → conn_of (store ref) ≡ some c
    → In c (round never true early late active store).aborted
unfolding round start
round_aborts early late active store ref c h e =
    rw (items-enqueue_all early active)
      (pass-aborts 0 (active.items ++ early) (start store) ref c h e)

-- After a round in which the host is held for dead and the monitor is not stopped, a state that the
-- queue held, or got before its last state was taken, is marked for an unhealthy host and has no
-- connection, if it is still alive; every other state is as it was, and the queue is empty.
pub round_unhealthy :
    (early late : List ℕ) (active : RwQueue ℕ) (store : Store) (ref : ℕ)
    → ((round never true early late active store).store ref
        ≡ after (has ref (active.items ++ early)) (store ref))
      × ((round never true early late active store).active ≡ new)
unfolding round start
round_unhealthy early late active store ref = (
  rw (items-enqueue_all early active) (pass-store 0 (active.items ++ early) (start store) ref),
  rw (items-enqueue_all early active) (pass-kept 0 (active.items ++ early) (start store)).0,
)
