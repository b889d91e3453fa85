-- ===== src/Sync/Handover.antt =====
-- Who gets the mutex next, and how the scheduler learns of it.
use nexus_os.Base.{
  ℕ, ◌<◌, ◌≡◌, ◌≢◌, ◌⊎◌, sym, ap, ◌∙◌, true, ◌||◌, ◌&&◌, List, [], ◌∷◌, ◌++◌, append_assoc, arith,
  leb, ◌==◌, length, inl, inr, some, Bool-cases, subst,
}
use nexus_os.Scheduler.Waiting.{max_threads, scheduler_wait_queue_pop_locked}
use nexus_os.Scheduler.Waiting.Fifo.{line, elem, join, first, is_line, pop-line}
use nexus_os.Scheduler.{
  Scheduler, scheduler_current_thread_id, scheduler_wake_thread_locked, find_thread_by_id,
  is_blocked, thread_ready,
}
use nexus_os.Scheduler.Chain.{Apart}
use nexus_os.Scheduler.Ready.{Queued, scheduler_wake_thread_locked-Queued}
use nexus_os.Sync.{Mutex, mutex_unlock, Op, try_lock, lock, unlock, apply}
use nexus_os.Sync.Line.{holders, IsSound, line_step, apply-Has, unlock-Has}

join_append :
    (id t : ℕ) (xs ys : List ℕ) → (zs : List ℕ) × (join id (xs ++ (t ∷ ys)) ≡ xs ++ (t ∷ zs))
join_append id t xs ys =
    elim (Bool-cases
      (id == 0 || leb max_threads (length (xs ++ (t ∷ ys))) || elem id (xs ++ (t ∷ ys)))) [
        | inl stays ↦ (ys, ground arith)
        | inr joins ↦ (ys ++ (id ∷ []), ground (arith, append_assoc xs (t ∷ ys) (id ∷ [])))
      ]

-- The same on lines.
AheadOf : ℕ → List ℕ → ℕ → List ℕ → Type 0
AheadOf owner before t xs =
    (behind : List ℕ) × ((xs ≡ owner ∷ before ++ (t ∷ behind)) ⊎ (xs ≡ before ++ (t ∷ behind)))

line_step-AheadOf :
    (op : Op) (owner t : ℕ) (before behind : List ℕ)
    → AheadOf owner before t (line_step (owner ∷ before ++ (t ∷ behind)) op)
unfolding AheadOf
line_step-AheadOf (try_lock s) owner t before behind = (behind, inl (ground arith))
line_step-AheadOf (lock s) owner t before behind = elim (Bool-cases s.ready) [
  | inl ready ↦
      let (more, e) = join_append (scheduler_current_thread_id s) t before behind in
      (more, inl (ground (arith, ready, e)))
  | inr idle ↦ (behind, inl (ground (arith, idle)))
]
line_step-AheadOf (unlock s) owner t before behind =
    elim (Bool-cases (s.ready && owner == scheduler_current_thread_id s)) [
      | inl owned ↦ (behind, inr (ground (arith, owned)))
      | inr other ↦ (behind, inl (ground (arith, other)))
    ]

-- A thread that waits for a sound mutex keeps its place: after any call on the mutex, whoever
-- makes it, either the same owner and the same threads are before it, or the owner has left and
-- the first of them owns.
pub no_overtaking :
    (m : Mutex) (op : Op) (owner t : ℕ) (before behind : List ℕ)
    → IsSound m
    → holders m ≡ owner ∷ before ++ (t ∷ behind)
    → (behind' : List ℕ) × ((holders (apply m op) ≡ owner ∷ before ++ (t ∷ behind'))
        ⊎ (holders (apply m op) ≡ before ++ (t ∷ behind')))
unfolding AheadOf
no_overtaking m op owner t before behind v e =
    subst (AheadOf owner before t) (sym ((apply-Has m op v).0 ∙ ap (λ xs. line_step xs op) e))
      (line_step-AheadOf op owner t before behind)

first_real : (x : ℕ) (xs : List ℕ) → is_line (x ∷ xs) ≡ true → x ≢ 0
unfolding is_line
first_real x xs h = ground arith

unlock_eq :
    (m : Mutex) (s : Scheduler) (id : ℕ)
    → s.ready ≡ true
    → m.locked ≡ true
    → m.owner ≡ scheduler_current_thread_id s
    → (scheduler_wait_queue_pop_locked m.waiters).0 ≡ id
    → id ≢ 0
    → (mutex_unlock m s).1 ≡ scheduler_wake_thread_locked id s
unfolding mutex_unlock
unlock_eq m s id ready locked owned e real =
    ground (arith, ap (λ i. scheduler_wake_thread_locked i s) e)

-- In a ready scheduler, the owner's unlock of a sound mutex for which others wait makes the first
-- of them the owner and, where that thread is blocked and not among the fewer than 8 ready
-- threads, appends it to the ready list in the state THREAD_READY.
pub unlock_wakes :
    (m : Mutex) (s : Scheduler) (id t : ℕ) (behind xs : List ℕ)
    → IsSound m
    → s.ready ≡ true
    → holders m ≡ scheduler_current_thread_id s ∷ id ∷ behind
    → Queued s xs
    → find_thread_by_id s id ≡ some t
    → is_blocked (s.tcbs t).state ≡ true
    → Apart t xs
    → length xs < max_threads
    → (holders (mutex_unlock m s).0 ≡ id ∷ behind)
      × Queued (mutex_unlock m s).1 (xs ++ (t ∷ []))
      × (((mutex_unlock m s).1.tcbs t).state ≡ thread_ready)
unlock_wakes m s id t behind xs v ready e q found blocked apart room =
    let waiting : line m.waiters ≡ id ∷ behind = ground (arith, e) in
    let one = (pop-line m.waiters v.queue).0 ∙ ap first waiting in
    let real : id ≢ 0 =
      ground (arith, first_real id behind (ap is_line (sym waiting) ∙ v.queue.ordered)) in
    let (rest, woken) = scheduler_wake_thread_locked-Queued s id t xs q apart room found blocked in
    let s1 : (mutex_unlock m s).1 ≡ scheduler_wake_thread_locked id s =
      unlock_eq m s id ready (ground (arith, e)) (ground (arith, e)) one real in
    (
      (unlock-Has m s v).0 ∙ ground (arith, e, ready),
      subst (λ s'. Queued s' (xs ++ (t ∷ []))) (sym s1) rest,
      ap (λ s'. (s'.tcbs t).state) s1 ∙ woken t ∙ ground arith,
    )
