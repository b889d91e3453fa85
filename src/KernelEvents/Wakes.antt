-- ===== src/KernelEvents/Wakes.antt =====
-- The rounds of wake_event_waiters_locked, and what they do to the ready list.
use nexus_os.Base.{
  ℕ, zero, suc, ◌+◌, ◌≤◌, ◌<◌, ◌≡◌, ◌≢◌, refl, sym, ap, ◌∙◌, true, false, none, some, List, [], ◌∷◌,
  ◌++◌, inl, inr, arith, ◌==◌, if◌then◌else◌, length, Bool-cases, Option-cases, subst, append-nil,
  append_assoc, ◌&&◌,
}
use nexus_os.Scheduler.Waiting.{WaitQueue, max_threads, scheduler_wait_queue_pop_locked}
use nexus_os.Scheduler.Waiting.Fifo
use nexus_os.Scheduler.Waiting.Fifo.{line, elem, is_line, first, others, pop-line}
use nexus_os.Scheduler.{
  Tcb, Scheduler, thread_ready, is_blocked, find_from, find_thread_by_id,
  scheduler_wake_thread_locked,
}
use nexus_os.Scheduler.Chain.{Apart, Apart-append, length-append}
use nexus_os.Scheduler.Ready.{Queued, scheduler_wake_thread_locked-Queued}
use nexus_os.Scheduler.Wake.{wake-Alike, find-Alike}
use nexus_os.KernelEvents.{wake_all}

pub first_real : (x : ℕ) (xs : List ℕ) → is_line (x ∷ xs) ≡ true → x ≢ 0
unfolding is_line
first_real x xs h = ground arith

pub ends_empty :
    (fuel : ℕ) (q : WaitQueue) (s : Scheduler)
    → (scheduler_wait_queue_pop_locked q).0 ≡ 0
    → wake_all (suc fuel) q s ≡ ((scheduler_wait_queue_pop_locked q).1, s)
unfolding wake_all
ends_empty fuel q s e = ground (arith, e)

pub wakes_first :
    (fuel : ℕ) (q : WaitQueue) (s : Scheduler) (id : ℕ)
    → (scheduler_wait_queue_pop_locked q).0 ≡ id
    → id ≢ 0
    → wake_all (suc fuel) q s
      ≡ wake_all fuel (scheduler_wait_queue_pop_locked q).1 (scheduler_wake_thread_locked id s)
unfolding wake_all
wakes_first fuel q s id e real = ground (
  arith,
  e,
  real,
  ap (λ i. wake_all fuel (scheduler_wait_queue_pop_locked q).1 (scheduler_wake_thread_locked i s))
      e,
)

-- The blocked threads among those with these ids.
unfoldable pub sleepers : Scheduler → List ℕ → List ℕ
sleepers s [] = []
sleepers s (id ∷ ids) = elim (find_thread_by_id s id) [
  | none ↦ sleepers s ids
  | some t ↦ if is_blocked (s.tcbs t).state then t ∷ sleepers s ids else sleepers s ids
]

find_from-id : (f : ℕ → Tcb) (id rounds i t : ℕ) → find_from f id rounds i ≡ some t → (f t).id ≡ id
unfolding find_from
find_from-id f id zero i t e = cc
find_from-id f id (suc rounds) i t e = elim (Bool-cases ((f i).live && (f i).id == id)) [
  | inl here ↦
      let at : i ≡ t = ground (arith, e, here) in ap (λ k. (f k).id) (sym at) ∙ ground (arith, here)
  | inr later ↦ find_from-id f id rounds (i + 1) t (ground (arith, e, later))
]

find-id : (s : Scheduler) (id t : ℕ) → find_thread_by_id s id ≡ some t → (s.tcbs t).id ≡ id
unfolding find_thread_by_id
find-id s id t e = find_from-id s.tcbs id max_threads 0 t e

-- A thread that has another id does not count whether it is blocked.
sleepers-same :
    (s s1 : Scheduler) (id t : ℕ) (ids : List ℕ)
    → ((other : ℕ) → find_thread_by_id s1 other ≡ find_thread_by_id s other)
    → find_thread_by_id s id ≡ some t
    → ((j : ℕ) → j ≢ t → (s1.tcbs j).state ≡ (s.tcbs j).state)
    → elem id ids ≡ false
    → sleepers s1 ids ≡ sleepers s ids
unfolding sleepers elem
sleepers-same s s1 id t [] finds found states apart = refl
sleepers-same s s1 id t (x ∷ ids) finds found states apart =
    let rest = sleepers-same s s1 id t ids finds found states (ground (arith, apart)) in
    elim (Option-cases (find_thread_by_id s x)) [
      | inl none_there ↦ rw (finds x, none_there, sleepers) rest
      | inr (u, there) ↦
          let ne : u ≢ t = λ same. absurd (
            ground (
              arith,
              apart,
              find-id s x u there,
              find-id s id t found,
              ap (λ k. (s.tcbs k).id) same,
            )) in
          rw (finds x, there, sleepers) (ground (arith, states u ne, rest))
    ]

-- What waking the threads of the ids does to a ready list: `ts` are woken.
pub record Wakes (s s' : Scheduler) (rs ts : List ℕ) : Type 0 where
  pub queued : Queued s' (rs ++ ts)
  pub states : (j : ℕ) → (s'.tcbs j).state ≡ (if elem j ts then thread_ready else (s.tcbs j).state)

-- No blocked thread is in the ready list.
abbrev pub AllAwake : Scheduler → List ℕ → Type 0
AllAwake s rs = (j : ℕ) → is_blocked (s.tcbs j).state ≡ true → Apart j rs

-- A thread that is not there or not blocked is passed over.
passes :
    (s : Scheduler) (id : ℕ) (ids : List ℕ)
    → ((t : ℕ) → find_thread_by_id s id ≡ some t → is_blocked (s.tcbs t).state ≡ false)
    → (scheduler_wake_thread_locked id s ≡ s) × (sleepers s (id ∷ ids) ≡ sleepers s ids)
unfolding scheduler_wake_thread_locked sleepers
passes s id ids awake = elim (Option-cases (find_thread_by_id s id)) [
  | inl absent ↦ (rw (absent, scheduler_wake_thread_locked), rw (absent, sleepers))
  | inr (t, found) ↦
      let quiet = awake t found in
      (rw (found, quiet, scheduler_wake_thread_locked), rw (found, quiet, sleepers))
]

wakes_blocked :
    (s : Scheduler) (id t : ℕ) (ids : List ℕ)
    → find_thread_by_id s id ≡ some t
    → is_blocked (s.tcbs t).state ≡ true
    → sleepers s (id ∷ ids) ≡ t ∷ sleepers s ids
unfolding sleepers
wakes_blocked s id t ids found blocked = rw (found, blocked, sleepers)

pub wake_all-Wakes :
    (fuel : ℕ) (q : WaitQueue) (s : Scheduler) (ids rs : List ℕ)
    → Fifo.IsValid q
    → line q ≡ ids
    → length ids < fuel
    → Queued s rs
    → AllAwake s rs
    → length rs + length (sleepers s ids) ≤ max_threads
    → Wakes s (wake_all fuel q s).1 rs (sleepers s ids)
unfolding elem sleepers is_line
wake_all-Wakes zero q s ids rs v e enough queue awake room = absurd (omega arith)
wake_all-Wakes (suc fuel) q s [] rs v e enough queue awake room =
    let (one, rest, valid) = pop-line q v in
    subst (λ r. Wakes s r.1 rs []) (sym (ends_empty fuel q s (one ∙ ap first e)))
      (record { queued = subst (Queued s) (sym (append-nil rs)) queue; states = λ j. refl })
wake_all-Wakes (suc fuel) q s (id ∷ ids) rs v e enough queue awake room =
    let (one, rest, valid) = pop-line q v in
    let q1 = (scheduler_wait_queue_pop_locked q).1 in
    let s1 = scheduler_wake_thread_locked id s in
    let ordered : is_line (id ∷ ids) ≡ true = sym (ap is_line e) ∙ v.ordered in
    let step = wakes_first fuel q s id (one ∙ ap first e) (first_real id ids ordered) in
    let line1 = rest ∙ ap others e in
    let pass : ((t : ℕ) → find_thread_by_id s id ≡ some t → is_blocked (s.tcbs t).state ≡ false)
        → Wakes s (wake_all (suc fuel) q s).1 rs (sleepers s (id ∷ ids)) =
      λ quiet.
        let (same, listed) = passes s id ids quiet in
        subst (λ (r : WaitQueue × Scheduler). Wakes s r.1 rs (sleepers s (id ∷ ids)))
          (sym (step ∙ ap (wake_all fuel q1) same))
          (subst (Wakes s (wake_all fuel q1 s).1 rs) (sym listed) (
            wake_all-Wakes fuel q1 s ids rs valid line1 (omega arith) queue awake
              (omega (arith, room, ap length listed)))) in
    elim (Option-cases (find_thread_by_id s id)) [
      | inl absent ↦ pass (λ t found. cc (absent, found))
      | inr (t, found) ↦ elim (Bool-cases (is_blocked (s.tcbs t).state)) [
        | inr quiet ↦ pass (λ u there.
            ground
              (arith, found, there, quiet, ap (λ k. is_blocked (s.tcbs k).state) {x = t} {y = u}))
        | inl blocked ↦
            let listed = wakes_blocked s id t ids found blocked in
            let (queue1, states1) =
              scheduler_wake_thread_locked-Queued s id t rs queue (awake t blocked)
                (omega (arith, room, ap length listed)) found blocked in
            let kept =
              sleepers-same s s1 id t ids (λ other. find-Alike s s1 other (wake-Alike s id)) found
                (λ j ne. states1 j ∙ ground (arith, ne)) (ground (arith, ordered)) in
            let w =
              wake_all-Wakes fuel q1 s1 ids (rs ++ (t ∷ [])) valid line1 (omega arith) queue1
                (λ j still.
                  Apart-append j t rs (awake j (ground (arith, still, states1 j)))
                    (ground (arith, still, states1 j)))
                (omega (arith, room, ap length listed, ap length kept, length-append t rs)) in
            subst (λ (r : WaitQueue × Scheduler). Wakes s r.1 rs (sleepers s (id ∷ ids))) (sym step)
              (subst (Wakes s (wake_all fuel q1 s1).1 rs) (sym listed) (record {
                queued =
                    subst (Queued (wake_all fuel q1 s1).1)
                      (append_assoc rs (t ∷ []) (sleepers s1 ids) ∙ ap (λ ts. rs ++ (t ∷ ts)) kept)
                      w.queued;
                states = λ j. w.states j ∙ ground (arith, ap (elem j) kept, states1 j);
              }))
      ]
    ]
