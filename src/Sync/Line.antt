-- ===== src/Sync/Line.antt =====
-- A mutex is a line of threads whose first is the owner.
use nexus_os.Base.{
  ℕ, ◌≡◌, refl, sym, ap, ◌∙◌, true, false, ◌&&◌, not, List, [], ◌∷◌, arith, ◌==◌, if◌then◌else◌,
  inl, inr, Bool-cases, subst,
}
use nexus_os.Scheduler.Waiting.{
  WaitQueue, scheduler_wait_queue_contains, scheduler_wait_queue_pop_locked,
}
use nexus_os.Scheduler.Waiting.Fifo
use nexus_os.Scheduler.Waiting.Fifo.{
  line, elem, is_line, join, first, others, elem-append, scheduler_wait_queue_contains_lem,
  push-line, pop-line,
}
use nexus_os.Scheduler.{Scheduler, scheduler_current_thread_id, enter, thread_block_on_wait_queue}
use nexus_os.Sync.{
  Mutex, mutex_try_lock, mutex_lock_round, mutex_unlock, Op, try_lock, lock, unlock, apply, run,
}

-- The owner, then those who wait.
abbrev pub holders : Mutex → List ℕ
holders m = if m.locked then m.owner ∷ line m.waiters else []

pub record IsSound (m : Mutex) : Type 0 where
  pub queue : Fifo.IsValid m.waiters
  pub nobody : m.locked ≡ false → line m.waiters ≡ []

abbrev claim : ℕ → List ℕ → List ℕ
claim t [] = t ∷ []
claim t (x ∷ xs) = x ∷ xs

abbrev stand : ℕ → List ℕ → List ℕ
stand t [] = t ∷ []
stand t (x ∷ xs) = x ∷ join t xs

abbrev leave : ℕ → List ℕ → List ℕ
leave t [] = []
leave t (x ∷ xs) = if x == t then xs else x ∷ xs

abbrev when_ready : Scheduler → (ℕ → List ℕ → List ℕ) → List ℕ → List ℕ
when_ready s f xs = if s.ready then f (scheduler_current_thread_id s) xs else xs

-- The calls on lines.
abbrev pub line_step : List ℕ → Op → List ℕ
line_step xs (try_lock s) = when_ready s claim xs
line_step xs (lock s) = when_ready s stand xs
line_step xs (unlock s) = when_ready s leave xs

pub line_run : List ℕ → List Op → List ℕ
line_run xs [] = xs
line_run xs (op ∷ ops) = line_run (line_step xs op) ops

-- The mutex is sound and its line is this one.
abbrev pub Has : List ℕ → Mutex → Type 0
Has xs m = (holders m ≡ xs) × IsSound m

try_lock_eq :
    (m : Mutex) (s : Scheduler)
    → (mutex_try_lock m s).1 ≡ (
        if s.ready && not m.locked
        then record m { locked = true; owner = scheduler_current_thread_id s }
        else m)
unfolding mutex_try_lock
try_lock_eq m s = ground arith

taken-Has :
    (m : Mutex) (s : Scheduler)
    → IsSound m
    → m.locked ≡ false
    → Has
        (scheduler_current_thread_id s ∷ [])
        (record m { locked = true; owner = scheduler_current_thread_id s })
taken-Has m s v free = (
  ap (◌∷◌ (scheduler_current_thread_id s)) (v.nobody free),
  record { queue = v.queue; nobody = λ e. absurd (ground (arith, e)) },
)

try_lock-Has :
    (m : Mutex) (s : Scheduler)
    → IsSound m
    → Has (when_ready s claim (holders m)) (mutex_try_lock m s).1
try_lock-Has m s v = elim (Bool-cases (s.ready && not m.locked)) [
  | inl free ↦
      let (line, sound) = taken-Has m s v (ground arith) in
      subst (Has (when_ready s claim (holders m)))
        (sym (
          try_lock_eq m s
          ∙ ap
              (λ b.
                if b then record m { locked = true; owner = scheduler_current_thread_id s } else m)
              free))
        (line ∙ ground arith, sound)
  | inr refused ↦
      subst (Has (when_ready s claim (holders m)))
        (sym (
          try_lock_eq m s
          ∙ ap
              (λ b.
                if b then record m { locked = true; owner = scheduler_current_thread_id s } else m)
              refused))
        (ground arith, v)
]

enter-line :
    (q : WaitQueue) (id : ℕ)
    → Fifo.IsValid q
    → (line (enter q id) ≡ join id (line q)) × Fifo.IsValid (enter q id)
enter-line q id v = elim (Bool-cases (scheduler_wait_queue_contains q id)) [
  | inl there ↦ rw there (ground (arith, there, scheduler_wait_queue_contains_lem q id), v)
  | inr new ↦ rw new (push-line q id v)
]

join_twice : (t : ℕ) (xs : List ℕ) → join t (join t xs) ≡ join t xs
unfolding elem
join_twice t xs = ground (arith, elem-append t t xs)

first_others :
    (xs : List ℕ)
    → is_line xs ≡ true
    → (if not (first xs == 0) then first xs ∷ others xs else []) ≡ xs
unfolding is_line
first_others [] h = refl
first_others (x ∷ xs) h = ground arith

-- The mutex after its owner has let it go.
abbrev handed : Mutex → Mutex
handed m =
    let (next, rest) = scheduler_wait_queue_pop_locked m.waiters in
    record { owner = next; locked = not (next == 0); waiters = rest }

unlock_eq :
    (m : Mutex) (s : Scheduler)
    → (mutex_unlock m s).0
      ≡ (if s.ready && m.locked && m.owner == scheduler_current_thread_id s then handed m else m)
unfolding mutex_unlock
unlock_eq m s = ground arith

handed-Has : (m : Mutex) → IsSound m → Has (line m.waiters) (handed m)
handed-Has m v =
    let (one, rest, valid) = pop-line m.waiters v.queue in
    let all = first_others (line m.waiters) v.queue.ordered in
    (
      ground (arith, one, rest, all),
      record { queue = valid; nobody = λ e. ground (arith, e, one, rest, all) },
    )

pub unlock-Has :
    (m : Mutex) (s : Scheduler)
    → IsSound m
    → Has (when_ready s leave (holders m)) (mutex_unlock m s).0
unlock-Has m s v =
    subst (Has (when_ready s leave (holders m))) (sym (unlock_eq m s))
      (elim (Bool-cases (s.ready && m.locked && m.owner == scheduler_current_thread_id s)) [
        | inl owned ↦
            rw owned (let (rest, sound) = handed-Has m v in (rest ∙ ground (arith, owned), sound))
        | inr other ↦ rw other (ground arith, v)
      ])

-- Where the thread that finds the mutex taken has joined the line.
queued-Has :
    (m : Mutex) (q : WaitQueue) (t : ℕ)
    → m.locked ≡ true
    → (line q ≡ join t (line m.waiters)) × Fifo.IsValid q
    → Has (m.owner ∷ join t (line m.waiters)) (record m { waiters = q })
queued-Has m q t locked (e, valid) =
    (ground (arith, e, locked), record { queue = valid; nobody = λ f. absurd (ground (arith, f)) })

block_eq :
    (q : WaitQueue) (s : Scheduler)
    → (s.ready && not (scheduler_current_thread_id s == 0)) ≡ true
    → (thread_block_on_wait_queue q s).1 ≡ enter q (scheduler_current_thread_id s)
unfolding thread_block_on_wait_queue scheduler_current_thread_id
block_eq q s awake = ground arith

-- The wait queue when the thread has blocked.
abbrev slept : Mutex → Scheduler → WaitQueue
slept m s = (thread_block_on_wait_queue (enter m.waiters (scheduler_current_thread_id s)) s).1

slept-line :
    (m : Mutex) (s : Scheduler)
    → IsSound m
    → (s.ready && not (scheduler_current_thread_id s == 0)) ≡ true
    → (line (slept m s) ≡ join (scheduler_current_thread_id s) (line m.waiters))
      × Fifo.IsValid (slept m s)
slept-line m s v awake =
    let tid = scheduler_current_thread_id s in
    let (once, valid) = enter-line m.waiters tid v.queue in
    let (twice, valid') = enter-line (enter m.waiters tid) tid valid in
    subst (λ q. (line q ≡ join tid (line m.waiters)) × Fifo.IsValid q)
      (sym (block_eq (enter m.waiters tid) s awake))
      (twice ∙ ap (join tid) once ∙ join_twice tid (line m.waiters), valid')

lock_eq :
    (m : Mutex) (s : Scheduler)
    → (mutex_lock_round m s).1 ≡ (
        if s.ready && not m.locked
        then record m { locked = true; owner = scheduler_current_thread_id s }
        else if s.ready && not (scheduler_current_thread_id s == 0)
        then record m { waiters = slept m s }
        else m)
unfolding mutex_lock_round mutex_try_lock
lock_eq m s = ground arith

lock-Has :
    (m : Mutex) (s : Scheduler)
    → IsSound m
    → Has (when_ready s stand (holders m)) (mutex_lock_round m s).1
lock-Has m s v =
    subst (Has (when_ready s stand (holders m))) (sym (lock_eq m s))
      (elim (Bool-cases (s.ready && not m.locked)) [
        | inl free ↦
            rw free
              (let (rest, sound) = taken-Has m s v (ground arith) in (rest ∙ ground arith, sound))
        | inr taken ↦ elim (Bool-cases (s.ready && not (scheduler_current_thread_id s == 0))) [
          | inl awake ↦
              rw (taken, awake)
                (let (rest, sound) =
                    queued-Has m (slept m s) (scheduler_current_thread_id s) (ground arith)
                      (slept-line m s v awake) in
                  (rest ∙ ground arith, sound))
          | inr idle ↦ rw (taken, idle) (ground arith, v)
        ]
      ])

-- Each call does to the line what line_step says.
pub apply-Has : (m : Mutex) (op : Op) → IsSound m → Has (line_step (holders m) op) (apply m op)
apply-Has m (try_lock s) v = try_lock-Has m s v
apply-Has m (lock s) v = lock-Has m s v
apply-Has m (unlock s) v = unlock-Has m s v

-- Whatever the scheduler does between the calls, any calls on a sound mutex leave the owner and
-- the threads that wait in the order that the line keeps: a thread that finds the line empty
-- becomes its first, one that finds it taken joins at the end once, and an unlock by the first
-- hands over to the next.
pub run-Has : (m : Mutex) (ops : List Op) → IsSound m → Has (line_run (holders m) ops) (run m ops)
unfolding run line_run
run-Has m [] v = (refl, v)
run-Has m (op ∷ ops) v =
    let (e, sound) = apply-Has m op v in
    let (rest, last_sound) = run-Has (apply m op) ops sound in
    (rest ∙ ap (λ xs. line_run xs ops) e, last_sound)
