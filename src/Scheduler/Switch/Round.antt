-- ===== src/Scheduler/Switch/Round.antt =====
-- scheduler_process serves the ready threads in turn.
use nexus_os.Base.{
  ℕ, zero, suc, ◌+◌, ◌-◌, ◌<◌, ◌≡◌, ◌≢◌, refl, sym, ap, ◌∙◌, Bool, true, false, ◌||◌, none, some,
  List, [], ◌∷◌, ◌++◌, inl, inr, Option-cases, Bool-cases, arith, ◌==◌, length, subst,
}
use nexus_os.Scheduler.Waiting.{max_threads}
use nexus_os.Scheduler.{
  Tcb, Scheduler, thread_ready, thread_running, thread_zombie, is_zombie, is_running, link, mark,
  make_ready, ready_pop, wake_first, wake_due, wake_due_threads,
}
use nexus_os.Scheduler.Chain.{Apart, Chain}
use nexus_os.Scheduler.Ready.{mark_next}
use nexus_os.Scheduler.Due.{
  Lists, all_due, none_due, wake_due_threads-Lists, wake_first-Lists, length-both,
}
use nexus_os.Scheduler.Frame.{
  ready_append-Moved, ready_append_state, wake_due_threads-Moved, Lists-same, make_ready-Lists,
  ready_pop-Lists,
}
use nexus_os.Scheduler.Switch.Reap.{reap_zombies-Reaped, Reaped-Lists, AllAlive, AllAlive-mono}
use nexus_os.Scheduler.Services.{Services}
use nexus_os.Scheduler.Switch.{
  Switch, switches_to, stays, can_run, switch_to, refuse, dispatch, choose, schedule, reap_zombies,
  scheduler_process,
}

Apart-right : (x : ℕ) (xs ys : List ℕ) → Apart x (xs ++ ys) → Apart x ys
unfolding Apart
Apart-right x [] ys a = a
Apart-right x (y ∷ xs) ys a = Apart-right x xs ys a.1

Apart-both : (x : ℕ) (xs ys : List ℕ) → Apart x xs → Apart x ys → Apart x (xs ++ ys)
unfolding Apart
Apart-both x [] ys a b = b
Apart-both x (y ∷ xs) ys a b = (a.0, Apart-both x xs ys a.1 b)

wake_first_state :
    (s : Scheduler) (t j : ℕ) → t ≢ j → ((wake_first t s).tcbs j).state ≡ (s.tcbs j).state
wake_first_state s t j ne =
    ready_append_state
      (record s {
        tcbs = mark (link s.tcbs t none) t thread_ready;
        sleep_head = (s.tcbs t).next;
        sleeping_count = s.sleeping_count - 1;
      })
      t j
    ∙ ground (arith, ne)

-- A thread that does not sleep keeps its state when others are woken.
wake_due_state :
    (fuel : ℕ) (s : Scheduler) (rs zs : List ℕ) (j : ℕ)
    → Lists s rs zs
    → Apart j zs
    → ((wake_due fuel s).tcbs j).state ≡ (s.tcbs j).state
unfolding wake_due Apart Chain
wake_due_state zero s rs zs j v a = refl
wake_due_state (suc fuel) s rs [] j v a =
    let none_sleeps : s.sleep_head ≡ none = v.sleeping.chain in ground (arith, none_sleeps)
wake_due_state (suc fuel) s rs (t ∷ zs) j v a =
    let head : s.sleep_head ≡ some t = v.sleeping.chain.0 in
    let later =
      wake_due_state fuel (wake_first t s) (rs ++ (t ∷ [])) zs j (wake_first-Lists s t rs zs v)
        a.1 in
    ground (arith, head, later, wake_first_state s t j a.0)

pub wake_due_threads_state :
    (s : Scheduler) (rs zs : List ℕ) (j : ℕ)
    → Lists s rs zs
    → Apart j zs
    → ((wake_due_threads s).tcbs j).state ≡ (s.tcbs j).state
unfolding wake_due_threads
wake_due_threads_state s rs zs j v a = wake_due_state max_threads s rs zs j v a

module _ {W : Type 0} (k : Services W) where
  -- The thread belongs to the kernel, or to a process that has not ended and has page tables.
  abbrev pub is_runnable : ℕ → Scheduler → W → Bool
  is_runnable n s w =
      (s.tcbs n).process_pid == 0
      || elim (k.process_get (s.tcbs n).process_pid w) [ none ↦ false | some p ↦ can_run p ]

  -- What a switch from `old` to `n` leaves.
  abbrev pub Switched : ℕ → ℕ → List ℕ → List ℕ → Switch × Scheduler × W → Type 0
  Switched old n rs zs r =
      (r.0 ≡ switches_to old n)
      × Lists r.1 rs zs
      × (r.1.current ≡ some n)
      × ((r.1.tcbs n).state ≡ thread_running)
      × ((r.1.tcbs old).state ≡ thread_ready)

  switch_to_next :
      (old n cr3 j : ℕ) (s : Scheduler) (w : W)
      → ((switch_to k old n cr3 s w).1.tcbs j).next ≡ (s.tcbs j).next
  unfolding switch_to
  switch_to_next old n cr3 j s w = ground (
    arith,
    ap (λ i. (s.tcbs i).next) {x = old} {y = j},
    ap (λ i. (s.tcbs i).next) {x = n} {y = j},
    ap (λ i. (s.tcbs i).next) {x = old} {y = n},
  )

  switch_to_state :
      (old n cr3 j : ℕ) (s : Scheduler) (w : W)
      → ((switch_to k old n cr3 s w).1.tcbs j).state ≡ (s.tcbs j).state
  unfolding switch_to
  switch_to_state old n cr3 j s w = ground (
    arith,
    ap (λ i. (s.tcbs i).state) {x = old} {y = j},
    ap (λ i. (s.tcbs i).state) {x = n} {y = j},
    ap (λ i. (s.tcbs i).state) {x = old} {y = n},
  )

  module _ (old n : ℕ) (rs zs : List ℕ) (s : Scheduler) (apart : n ≢ old) (v : Lists s rs zs)
      (waits : (s.tcbs old).state ≡ thread_ready) where
    switch_to-Switched :
        (cr3 : ℕ) (w : W)
        → Switched old n rs zs (
            switch_to k old n cr3
              (record s { tcbs = mark s.tcbs n thread_running; current = some n })
              w)
    unfolding switch_to
    switch_to-Switched cr3 w =
        let s1 = record s { tcbs = mark s.tcbs n thread_running; current = some n } in
        (
          refl,
          Lists-same s (switch_to k old n cr3 s1 w).1 rs zs v
              (λ j. switch_to_next old n cr3 j s1 w ∙ mark_next s.tcbs n j thread_running)
              (refl, refl, refl, refl, refl),
          refl,
          switch_to_state old n cr3 n s1 w ∙ ground arith,
          switch_to_state old n cr3 old s1 w ∙ ground (arith, apart, waits),
        )

    dispatch-Switched :
        (w : W) → is_runnable n s w ≡ true → Switched old n rs zs (dispatch k old n s w)
    unfolding dispatch
    dispatch-Switched w good = elim (Bool-cases ((s.tcbs n).process_pid == 0)) [
      | inl kernel ↦
          rw (kernel, dispatch)
            (switch_to-Switched (k.paging_kernel_cr3 w) (k.process_clear_current w))
      | inr user ↦ elim (Option-cases (k.process_get (s.tcbs n).process_pid w)) [
        | inl absent ↦ absurd (ground (arith, good, user, absent))
        | inr (p, found) ↦
            let fit : can_run p ≡ true = ground (arith, good, user, found) in
            rw (user, found, fit, dispatch)
              (switch_to-Switched p.address_space_cr3 (k.process_set_current p.pid w))
      ]
    ]

  -- The next thread cannot run.
  pub dispatch-Refused :
      (old n : ℕ) (s : Scheduler) (w : W)
      → n ≢ old
      → is_runnable n s w ≡ false
      → ((dispatch k old n s w).0 ≡ stays)
        × ((dispatch k old n s w).1.current ≡ some old)
        × (((dispatch k old n s w).1.tcbs old).state ≡ thread_running)
        × (((dispatch k old n s w).1.tcbs n).state ≡ thread_zombie)
  unfolding dispatch refuse
  dispatch-Refused old n s w apart bad = elim (Bool-cases ((s.tcbs n).process_pid == 0)) [
    | inl kernel ↦ absurd (ground (arith, bad, kernel))
    | inr user ↦ elim (Option-cases (k.process_get (s.tcbs n).process_pid w)) [
      | inl absent ↦ (
        ground (arith, user, absent),
        ground (arith, user, absent),
        ground (arith, user, absent),
        ground (arith, user, absent, apart),
      )
      | inr (p, found) ↦
          let unfit : can_run p ≡ false = ground (arith, bad, user, found) in
          (
            ground (arith, user, found, unfit),
            ground (arith, user, found, unfit),
            ground (arith, user, found, unfit),
            ground (arith, user, found, unfit, apart),
          )
    ]
  ]

  pub choose-some :
      (old n : ℕ) (s s1 : Scheduler) (w : W)
      → ready_pop s ≡ (some n, s1)
      → (n == old) ≡ false
      → choose k old s w ≡ dispatch k old n s1 w
  unfolding choose
  choose-some old n s s1 w popped other = ground (arith, popped, other)

  pub schedule_running :
      (s : Scheduler) (w : W) (old : ℕ)
      → s.current ≡ some old
      → (s.tcbs old).state ≡ thread_running
      → schedule k s w ≡ choose k old (make_ready old s) w
  unfolding schedule
  schedule_running s w old cur running = ground (arith, cur, running)

  pub schedule_idle :
      (s : Scheduler) (w : W) (old : ℕ)
      → s.current ≡ some old
      → is_running (s.tcbs old).state ≡ false
      → schedule k s w ≡ choose k old s w
  unfolding schedule
  schedule_idle s w old cur idle = ground (arith, cur, idle)

  pub scheduler_process_asked :
      (s s2 : Scheduler) (w w2 : W)
      → s.ready ≡ true
      → reap_zombies k (wake_due_threads s) w ≡ (s2, w2)
      → s2.reschedule_pending ≡ true
      → scheduler_process k s w
        ≡ schedule k (record s2 { reschedule_pending = false; wakeup_pending = false }) w2
  unfolding scheduler_process
  scheduler_process_asked s s2 w w2 on e asked = ground (arith, on, e, asked)

  -- The running thread goes to the end of the ready list, whose first runs.
  schedule-Switched :
      (s : Scheduler) (w : W) (old n : ℕ) (rest zs : List ℕ)
      → Lists s (n ∷ rest) zs
      → s.current ≡ some old
      → (s.tcbs old).state ≡ thread_running
      → Apart old (n ∷ rest)
      → Apart old zs
      → length rest + 1 + length zs < max_threads
      → is_runnable n s w ≡ true
      → Switched old n (rest ++ (old ∷ [])) zs (schedule k s w)
  unfolding Apart
  schedule-Switched s w old n rest zs v cur running ar az room good =
      let marked = record s { tcbs = mark s.tcbs old thread_ready } in
      let s1 = make_ready old s in
      let moved = ready_append-Moved marked old in
      let (s2, popped, v2, moved2, states) =
        ready_pop-Lists s1 n (rest ++ (old ∷ [])) zs
          (make_ready-Lists s old (n ∷ rest) zs v ar az (omega arith)) in
      let waits : (s2.tcbs old).state ≡ thread_ready =
        states old ∙ ready_append_state marked old old ∙ ground arith in
      let pid : (s2.tcbs n).process_pid ≡ (s.tcbs n).process_pid =
        moved2.pids n
        ∙ moved.pids n
        ∙ ground (arith, ap (λ i. (s.tcbs i).process_pid) {x = old} {y = n}) in
      let other : (n == old) ≡ false = ground (arith, ar.0) in
      subst (Switched old n (rest ++ (old ∷ [])) zs)
        (sym (schedule_running s w old cur running ∙ choose-some old n s1 s2 w popped other))
        (dispatch-Switched old n (rest ++ (old ∷ [])) zs s2 ar.0 v2 waits w
          (ground (arith, good, pid)))

  -- While a reschedule is requested and the ready list with the threads that are due in front of
  -- the sleep list is `n`, `rest`, a call of scheduler_process by a running thread that is in
  -- neither list switches to `n`, if the process of `n` can run. Then `n` is the running thread, the
  -- caller is ready at the end of the ready list, and the sleep list holds the threads that are not
  -- due. No thread of the lists has ended, and they hold fewer than 8 threads.
  pub scheduler_process-Switched :
      (s : Scheduler) (w : W) (old n : ℕ) (rs ds zs rest : List ℕ)
      → Lists s rs (ds ++ zs)
      → all_due (λ j. (s.tcbs j).wake_tick) s.ticks ds ≡ true
      → none_due (λ j. (s.tcbs j).wake_tick) s.ticks zs ≡ true
      → length rs + length (ds ++ zs) < max_threads
      → s.ready ≡ true
      → s.reschedule_pending ≡ true
      → s.current ≡ some old
      → (s.tcbs old).state ≡ thread_running
      → Apart old (rs ++ ds)
      → Apart old zs
      → AllAlive s.tcbs (rs ++ ds)
      → AllAlive s.tcbs zs
      → rs ++ ds ≡ n ∷ rest
      → is_runnable n s (reap_zombies k (wake_due_threads s) w).1 ≡ true
      → Switched old n (rest ++ (old ∷ [])) zs (scheduler_process k s w)
  unfolding AllAlive
  scheduler_process-Switched s w old n rs ds zs rest v due late room on asked cur running ar az lr
        lz e good =
      let s1 = wake_due_threads s in
      let (s2, w2) = reap_zombies k s1 w in
      let (v1, idle) = wake_due_threads-Lists s rs ds zs v due late in
      let moved = wake_due_threads-Moved s in
      let reaped = reap_zombies-Reaped k s1 w in
      let lr1 = AllAlive-mono s.tcbs s1.tcbs (rs ++ ds) moved.alive lr in
      let v2 =
        Reaped-Lists s1 s2 (rs ++ ds) zs reaped v1 lr1
          (AllAlive-mono s.tcbs s1.tcbs zs moved.alive lz) in
      let n_alive : is_zombie (s1.tcbs n).state ≡ false = (subst (AllAlive s1.tcbs) e lr1).0 in
      let old1 : (s1.tcbs old).state ≡ thread_running =
        wake_due_threads_state s rs (ds ++ zs) old v
          (Apart-both old ds zs (Apart-right old rs ds ar) az)
        ∙ running in
      let old2 : (s2.tcbs old).state ≡ thread_running =
        ap (λ (c : Tcb). c.state) (reaped.cells old (ap is_zombie old1)) ∙ old1 in
      let pid : (s2.tcbs n).process_pid ≡ (s.tcbs n).process_pid =
        ap (λ (c : Tcb). c.process_pid) (reaped.cells n n_alive) ∙ moved.pids n in
      let requested : s2.reschedule_pending ≡ true =
        ap (λ (x : Scheduler). x.reschedule_pending) reaped.others ∙ moved.requested ∙ asked in
      let current : s2.current ≡ some old =
        ap (λ (x : Scheduler). x.current) reaped.others ∙ moved.current ∙ cur in
      let s3 = record s2 { reschedule_pending = false; wakeup_pending = false } in
      subst (Switched old n (rest ++ (old ∷ [])) zs)
        (sym (scheduler_process_asked s s2 w w2 on refl requested))
        (schedule-Switched s3 w2 old n rest zs
          (Lists-same s2 s3 (n ∷ rest) zs (subst (λ l. Lists s2 l zs) e v2) (λ j. refl)
            (refl, refl, refl, refl, refl))
          current old2 (subst (Apart old) e ar) az
          (omega (arith, room, length-both ds zs, length-both rs ds, ap length e))
          (ground (arith, good, pid)))
