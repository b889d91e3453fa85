-- ===== src/KernelEvents/Broadcast.antt =====
-- An event wakes every thread that waits for its type.
use nexus_os.Base.{
  ◌≤◌, ℕ, zero, suc, ◌+◌, ◌%◌, ◌^◌, ◌<◌, ◌≡◌, ◌≢◌, refl, sym, ap, ◌∙◌, true, false, some, List, [],
  ◌∷◌, inl, inr, arith, ◌==◌, length, Bool-cases, subst,
}
use nexus_os.Base.Ring.{length-around}
use nexus_os.Scheduler.Waiting.{WaitQueue, max_threads, scheduler_wait_queue_pop_locked}
use nexus_os.Scheduler.Waiting.Fifo
use nexus_os.Scheduler.Waiting.Fifo.{line, elem, is_line, first, others, pop-line}
use nexus_os.Scheduler.{Scheduler, is_blocked, find_thread_by_id, scheduler_wake_thread_locked}
use nexus_os.Scheduler.Wake.{
  Alike, Alike-refl, Alike-trans, wake-Alike, woken-unblocked, find-Alike,
}
use nexus_os.Scheduler.Ready.{Queued}
use nexus_os.KernelEvents.Wakes.{
  first_real, ends_empty, wakes_first, sleepers, Wakes, AllAwake, wake_all-Wakes,
}
use nexus_os.KernelEvents.{
  KernelEvents, valid_type, wake_all, wake_fuel, finish_event, wake_event_waiters_locked,
}

-- The queue is empty and no thread of its line is blocked.
pub record Woken (ids : List ℕ) (s : Scheduler) (q : WaitQueue) (s' : Scheduler) : Type 0 where
  pub empty : line q ≡ []
  pub alike : Alike s.tcbs s'.tcbs
  pub none_blocked :
      (id t : ℕ)
      → elem id ids ≡ true
      → find_thread_by_id s id ≡ some t
      → is_blocked (s'.tcbs t).state ≡ false

wake_all-Woken :
    (fuel : ℕ) (q : WaitQueue) (s : Scheduler) (ids : List ℕ)
    → Fifo.IsValid q
    → line q ≡ ids
    → length ids < fuel
    → Woken ids s (wake_all fuel q s).0 (wake_all fuel q s).1
unfolding elem
wake_all-Woken zero q s ids v e enough = absurd (omega arith)
wake_all-Woken (suc fuel) q s [] v e enough =
    let (one, rest, valid) = pop-line q v in
    subst (λ r. Woken [] s r.0 r.1) (sym (ends_empty fuel q s (one ∙ ap first e)))
      (record {
        empty = rest ∙ ap others e;
        alike = Alike-refl s.tcbs;
        none_blocked = λ id t there found. absurd (ground (arith, there));
      })
wake_all-Woken (suc fuel) q s (id ∷ ids) v e enough =
    let (one, rest, valid) = pop-line q v in
    let s1 = scheduler_wake_thread_locked id s in
    let real = first_real id ids (sym (ap is_line e) ∙ v.ordered) in
    let w =
      wake_all-Woken fuel (scheduler_wait_queue_pop_locked q).1 s1 ids valid (rest ∙ ap others e)
        (omega arith) in
    subst (λ r. Woken (id ∷ ids) s r.0 r.1) (sym (wakes_first fuel q s id (one ∙ ap first e) real))
      (record {
        empty = w.empty;
        alike =
            Alike-trans s.tcbs s1.tcbs
              (wake_all fuel (scheduler_wait_queue_pop_locked q).1 s1).1.tcbs (wake-Alike s id)
              w.alike;
        none_blocked = λ other t there found. elim (Bool-cases (id == other)) [
          | inl same ↦
              w.alike.unblocked t
                (woken-unblocked s id t (ap (find_thread_by_id s) (ground (arith, same)) ∙ found))
          | inr apart ↦
              w.none_blocked other t (ground (arith, there, apart))
                (find-Alike s s1 other (wake-Alike s id) ∙ found)
        ];
      })

-- After an event of a valid type, whose wait queue is valid, nobody waits for that type any more; if no
-- blocked thread is in the ready list and the ready list has room for those that wait, the blocked
-- threads of the queue have joined it at the end, in their order, with the state THREAD_READY, and the
-- states of the other threads stay. The sequence number of the type and the number of processed events
-- have gone up by one, modulo 2 ^ 64; the other types keep their waiters and their numbers.
pub finish_event-Woken :
    (type : ℕ) (e : KernelEvents) (s : Scheduler) (rs : List ℕ)
    → valid_type type ≡ true
    → Fifo.IsValid (e.waiters type)
    → Queued s rs
    → AllAwake s rs
    → length rs + length (sleepers s (line (e.waiters type))) ≤ max_threads
    → let (e', s') = finish_event type e s in
      Woken (line (e.waiters type)) s (e'.waiters type) s'
      × Wakes s s' rs (sleepers s (line (e.waiters type)))
      × (e'.sequence type ≡ (e.sequence type + 1) % 2 ^ 64)
      × (e'.processed ≡ (e.processed + 1) % 2 ^ 64)
      × ((j : ℕ) → j ≢ type → (e'.waiters j ≡ e.waiters j) × (e'.sequence j ≡ e.sequence j))
unfolding finish_event wake_event_waiters_locked
finish_event-Woken type e s rs ok v queue awake room =
    let q = e.waiters type in
    let (done, woken) = wake_all wake_fuel q s in
    let size = length-around 0 max_threads q.ids q.head q.count in
    let fuel : length (line q) < wake_fuel = omega (arith, size, v.count_in) in
    let w = wake_all-Woken wake_fuel q s (line q) v refl fuel in
    let lists = wake_all-Wakes wake_fuel q s (line q) rs v refl fuel queue awake room in
    let emptied : (finish_event type e s).0.waiters type ≡ done = ground (arith, ok) in
    let after : (finish_event type e s).1 ≡ woken = ground (arith, ok) in
    (
      subst (λ q'. Woken (line q) s q' (finish_event type e s).1) (sym emptied)
          (subst (Woken (line q) s done) (sym after) w),
      subst (λ s'. Wakes s s' rs (sleepers s (line q))) (sym after) lists,
      ground (arith, ok),
      ground (arith, ok),
      λ j ne. (ground (arith, ok, ne), ground (arith, ok, ne)),
    )
