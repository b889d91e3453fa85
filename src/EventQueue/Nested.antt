-- ===== src/EventQueue/Nested.antt =====
-- The consumer's half is not a critical section: an interrupt may push events between any two
-- volatile accesses of event_queue_pop.
use nexus_os.Base.{
  subst, ℕ, ◌≡◌, refl, sym, ap, ◌∙◌, ◌≢◌, Option, none, some, List, [], ◌∷◌, ◌++◌, arith,
  append-nil, append_assoc, ◌==◌, if◌then◌else◌, length, get_or,
}
use nexus_os.EventQueue.{
  Event, EventQueue, no_event, event_none, increment, next_index, event_queue_push,
  event_queue_count,
}
use nexus_os.EventQueue.Valid.{IsValid, contents, length-contents, event_queue_push-IsValid}
use nexus_os.EventQueue.Refine.{push_contents, pop_contents}

-- A burst of interrupts, each of which pushes one event.
unfoldable pub interrupt : EventQueue → List Event → EventQueue
interrupt q [] = q
interrupt q (e ∷ es) = interrupt (event_queue_push q e.type e.source e.payload).1 es

-- The store to g_tail.
abbrev pub release : EventQueue → ℕ → EventQueue
release q tail = record q { tail = next_index tail }

-- event_queue_pop on a started queue, with a burst after the read of g_tail, after the read of
-- g_head, after the copy of the slot, and after the store to g_tail.
pub interrupted_pop :
    EventQueue → List Event → List Event → List Event → List Event → Option Event × EventQueue
interrupted_pop q reading copying releasing counting =
    let q1 = interrupt q reading in
    let q2 = interrupt q1 copying in
    let q3 = interrupt q2 releasing in
    let q4 = interrupt (release q3 q.tail) counting in
    if q.tail == q1.head
    then (none, q1)
    else (some (get_or q2.queue q.tail no_event), record q4 { popped = increment q4.popped })

-- What a producer leaves alone.
record Extends (q q' : EventQueue) : Type 0 where
  valid : IsValid q'
  same_tail : q'.tail ≡ q.tail
  same_popped : q'.popped ≡ q.popped
  added : List Event
  extended : contents q' ≡ contents q ++ added

-- What one push adds.
admitted : EventQueue → Event → List Event
admitted q e =
    if e.type == event_none then [] else if next_index q.head == q.tail then [] else e ∷ []

push_admitted :
    (q : EventQueue) (e : Event)
    → IsValid q
    → contents (event_queue_push q e.type e.source e.payload).1 ≡ contents q ++ admitted q e
unfolding event_queue_push event_queue_count admitted
push_admitted q e v = ground (arith, push_contents q e v, append-nil (contents q))

push-Extends :
    (q : EventQueue) (e : Event)
    → IsValid q
    → Extends q (event_queue_push q e.type e.source e.payload).1
unfolding event_queue_push
push-Extends q e v = record {
  valid = event_queue_push-IsValid q e.type e.source e.payload v;
  same_tail = ground arith;
  same_popped = ground arith;
  added = admitted q e;
  extended = push_admitted q e v;
}

Extends-trans : {q r s : EventQueue} → Extends q r → Extends r s → Extends q s
Extends-trans {q} first rest = record {
  valid = rest.valid;
  same_tail = rest.same_tail ∙ first.same_tail;
  same_popped = rest.same_popped ∙ first.same_popped;
  added = first.added ++ rest.added;
  extended =
      rest.extended
      ∙ ap (λ xs. xs ++ rest.added) first.extended
      ∙ append_assoc (contents q) first.added rest.added;
}

interrupt-Extends : (q : EventQueue) (es : List Event) → IsValid q → Extends q (interrupt q es)
unfolding interrupt
interrupt-Extends q [] v = record {
  valid = v;
  same_tail = refl;
  same_popped = refl;
  added = [];
  extended = sym (append-nil (contents q));
}
interrupt-Extends q (e ∷ es) v =
    let first = push-Extends q e v in
    Extends-trans first
      (interrupt-Extends (event_queue_push q e.type e.source e.payload).1 es first.valid)

-- The slot at the tail holds the oldest event, and releasing it drops that event.
oldest :
    (q : EventQueue) (e : Event) (es : List Event)
    → IsValid q
    → contents q ≡ e ∷ es
    → (get_or q.queue q.tail no_event ≡ e) × (contents (release q q.tail) ≡ es)
oldest q e es v c = ground (arith, length-contents q, pop_contents q (length es) v)

holds_some :
    (q : EventQueue) (e : Event) (es : List Event)
    → IsValid q
    → contents q ≡ e ∷ es
    → q.tail ≢ q.head
unfolding event_queue_count
holds_some q e es v c = ground (arith, length-contents q)

release-IsValid : (q : EventQueue) → IsValid q → IsValid (release q q.tail)
release-IsValid q v = ground arith

-- What the pop returns on a ring that is not empty, and the state that it leaves.
leaves :
    (q : EventQueue) (reading copying releasing counting : List Event)
    → q.tail ≢ (interrupt q reading).head
    → let q2 = interrupt (interrupt q reading) copying in
      let q4 = interrupt (release (interrupt q2 releasing) q.tail) counting in
      interrupted_pop q reading copying releasing counting
      ≡ (some (get_or q2.queue q.tail no_event), record q4 { popped = increment q4.popped })
unfolding interrupted_pop
leaves q reading copying releasing counting more = ground (arith, more)

-- If a valid ring holds an event when g_head is read, the pop returns the oldest one, whatever is
-- pushed meanwhile. It leaves a valid ring that holds the events that followed in the ring, in their
-- order, with what the bursts before the release and the one after it have added behind them, and it
-- counts one event more as popped.
pub interrupted_pop_oldest :
    (q : EventQueue) (reading copying releasing counting : List Event) (e : Event) (es : List Event)
    → IsValid q
    → contents (interrupt q reading) ≡ e ∷ es
    → let (r, left) = interrupted_pop q reading copying releasing counting in
      let q3 = interrupt (interrupt (interrupt q reading) copying) releasing in
      (r ≡ some e)
      × IsValid left
      × (xs : List Event) × (contents q3 ≡ e ∷ es ++ xs)
      × (ys : List Event) × (contents left ≡ (es ++ xs) ++ ys)
      × (left.popped ≡ increment q.popped)
unfolding interrupt event_queue_count
interrupted_pop_oldest q reading copying releasing counting e es v c =
    let q1 = interrupt q reading in
    let q2 = interrupt q1 copying in
    let q3 = interrupt q2 releasing in
    let before = interrupt-Extends q reading v in
    let during = interrupt-Extends q1 copying before.valid in
    let late = interrupt-Extends q2 releasing during.valid in
    let all = Extends-trans during late in
    let at_copy = during.extended ∙ ap (λ xs. xs ++ during.added) c in
    let at_release = all.extended ∙ ap (λ xs. xs ++ all.added) c in
    let copied = oldest q2 e (es ++ during.added) during.valid at_copy in
    let released = oldest q3 e (es ++ all.added) all.valid at_release in
    let tail3 : q3.tail ≡ q.tail = all.same_tail ∙ before.same_tail in
    let open_slot = release q3 q.tail in
    let valid3 : IsValid open_slot =
      subst (λ t. IsValid (release q3 t)) tail3 (release-IsValid q3 all.valid) in
    let after = interrupt-Extends open_slot counting valid3 in
    let more : q.tail ≢ q1.head =
      λ same. holds_some q1 e es before.valid c (before.same_tail ∙ same) in
    let result = leaves q reading copying releasing counting more in
    (
      ap (λ (p : Option Event × EventQueue). p.0) result
          ∙ ground (arith, before.same_tail, during.same_tail, copied),
      subst (λ (p : Option Event × EventQueue). IsValid p.1) (sym result)
          (record {
            slots = after.valid.slots;
            head_in = after.valid.head_in;
            tail_in = after.valid.tail_in;
            started = after.valid.started;
          }),
      all.added,
      at_release,
      after.added,
      ap (λ (p : Option Event × EventQueue). contents p.1) result
          ∙ after.extended
          ∙ ap (λ xs. xs ++ after.added)
              (ap (λ t. contents (release q3 t)) (sym tail3) ∙ released.1),
      ap (λ (p : Option Event × EventQueue). p.1.popped) result
          ∙ ap increment (after.same_popped ∙ all.same_popped ∙ before.same_popped),
    )
