-- ===== src/Scheduler/Threads/Exit.antt =====
-- thread_exit while the next ready thread belongs to a process that has ended.
use nexus_os.Base.{
  ℕ, ◌≡◌, ◌≢◌, refl, ap, ◌∙◌, true, false, some, List, [], ◌∷◌, arith, subst, append-nil,
}
use nexus_os.Scheduler.{
  Tcb, Scheduler, thread_running, thread_zombie, is_running, mark, wake_due_threads,
}
use nexus_os.Scheduler.Chain.{Apart}
use nexus_os.Scheduler.Ready.{mark_next}
use nexus_os.Scheduler.Due.{Lists, all_due, none_due, wake_due_threads-Lists}
use nexus_os.Scheduler.Frame.{wake_due_threads-Moved, Lists-same, ready_pop-Lists}
use nexus_os.Scheduler.Services.{Services}
use nexus_os.Scheduler.Switch.{
  Switch, stays, halts, switches_to, dispatch, reap_zombies, scheduler_process,
}
use nexus_os.Scheduler.Switch.Reap.{reap_zombies-Reaped, Reaped-Lists, AllAlive, AllAlive-mono}
use nexus_os.Scheduler.Switch.Round.{
  is_runnable, dispatch-Refused, choose-some, schedule_idle, scheduler_process_asked,
  wake_due_threads_state,
}
use nexus_os.Scheduler.Threads.{give_up_thread, thread_exit, stop}

AllAlive-mark :
    (f : ℕ → Tcb) (t : ℕ) (xs : List ℕ)
    → AllAlive f xs
    → Apart t xs
    → AllAlive (mark f t thread_zombie) xs
unfolding AllAlive Apart
AllAlive-mark f t [] l a = tt
AllAlive-mark f t (x ∷ xs) l a = (ground (arith, l.0, a.0), AllAlive-mark f t xs l.1 a.1)

none_due-mark :
    (f : ℕ → Tcb) (t now : ℕ) (zs : List ℕ)
    → none_due (λ j. (mark f t thread_zombie j).wake_tick) now zs
      ≡ none_due (λ j. (f j).wake_tick) now zs
none_due-mark f t now [] = refl
none_due-mark f t now (z ∷ zs) = ground (arith, ap (λ i. (f i).wake_tick) {x = t} {y = z})

module _ {W : Type 0} (k : Services W) where
  exit_stops :
      (s : Scheduler) (w : W) (c : ℕ)
      → s.ready ≡ true
      → s.current ≡ some c
      → (s.tcbs c).id ≢ 0
      → thread_exit k s w ≡ stop k (scheduler_process k (give_up_thread k c s) w)
  unfolding thread_exit
  exit_stops s w c on cur user = ground (arith, on, cur, user)

  stays_stops : (r : Switch × Scheduler × W) → r.0 ≡ stays → stop k r ≡ (halts, r.1, r.2)
  stays_stops (stays, s, w) e = refl
  stays_stops (halts, s, w) e = refl
  stays_stops (switches_to a b, s, w) e = cc

  -- A thread other than the first calls thread_exit while no sleeping thread is due and the thread
  -- `n` at the head of the ready list cannot run, because its process has ended or has no page
  -- tables. The caller is in neither list, and no thread of the lists has ended. Then the caller,
  -- made a zombie before, is made the running thread again, and the processor stops, although other
  -- threads may be ready.
  pub thread_exit-revives :
      (s : Scheduler) (w : W) (old n : ℕ) (rest zs : List ℕ)
      → Lists s (n ∷ rest) zs
      → none_due (λ j. (s.tcbs j).wake_tick) s.ticks zs ≡ true
      → s.ready ≡ true
      → s.current ≡ some old
      → (s.tcbs old).id ≢ 0
      → Apart old (n ∷ rest)
      → Apart old zs
      → AllAlive s.tcbs (n ∷ rest)
      → AllAlive s.tcbs zs
      → is_runnable k n s (reap_zombies k (wake_due_threads (give_up_thread k old s)) w).1 ≡ false
      → ((thread_exit k s w).0 ≡ halts)
        × ((thread_exit k s w).1.current ≡ some old)
        × (((thread_exit k s w).1.tcbs old).state ≡ thread_running)
        × (((thread_exit k s w).1.tcbs n).state ≡ thread_zombie)
  unfolding AllAlive Apart all_due
  thread_exit-revives s w old n rest zs v late on cur user ar az lr lz bad =
      let s0 = give_up_thread k old s in
      let v0 =
        Lists-same s s0 (n ∷ rest) zs v (λ j. mark_next s.tcbs old j thread_zombie)
          (refl, refl, refl, refl, refl) in
      let s1 = wake_due_threads s0 in
      let (s2, w2) = reap_zombies k s1 w in
      let late0 : none_due (λ j. (s0.tcbs j).wake_tick) s0.ticks zs ≡ true =
        none_due-mark s.tcbs old s.ticks zs ∙ late in
      let (v1, idle) = wake_due_threads-Lists s0 (n ∷ rest) [] zs v0 refl late0 in
      let v1' = subst (λ l. Lists s1 l zs) (append-nil (n ∷ rest)) v1 in
      let moved = wake_due_threads-Moved s0 in
      let reaped = reap_zombies-Reaped k s1 w in
      let lr1 =
        AllAlive-mono s0.tcbs s1.tcbs (n ∷ rest) moved.alive
          (AllAlive-mark s.tcbs old (n ∷ rest) lr ar) in
      let lz1 = AllAlive-mono s0.tcbs s1.tcbs zs moved.alive (AllAlive-mark s.tcbs old zs lz az) in
      let v2 = Reaped-Lists s1 s2 (n ∷ rest) zs reaped v1' lr1 lz1 in
      let ended : is_running (s1.tcbs old).state ≡ false =
        ap is_running (wake_due_threads_state s0 (n ∷ rest) zs old v0 az) ∙ ground arith in
      let s3 = record s2 { reschedule_pending = false; wakeup_pending = false } in
      let (s4, popped, v4, moved4, states) =
        ready_pop-Lists s3 n rest zs
          (Lists-same s2 s3 (n ∷ rest) zs v2 (λ j. refl) (refl, refl, refl, refl, refl)) in
      let pid : (s4.tcbs n).process_pid ≡ (s.tcbs n).process_pid =
        moved4.pids n
        ∙ ap (λ (t : Tcb). t.process_pid) (reaped.cells n lr1.0)
        ∙ moved.pids n
        ∙ ground (arith, ap (λ i. (s.tcbs i).process_pid) {x = old} {y = n}) in
      let reach : scheduler_process k s0 w ≡ dispatch k old n s4 w2 =
        scheduler_process_asked k s0 s2 w w2 on refl
          (ap (λ (x : Scheduler). x.reschedule_pending) reaped.others ∙ moved.requested)
        ∙ schedule_idle k s3 w2 old
            (ap (λ (x : Scheduler). x.current) reaped.others ∙ moved.current ∙ cur)
            (reaped.idle old ended)
        ∙ choose-some k old n s3 s4 w2 popped (ground (arith, ar.0)) in
      let (outcome, current, running, zombie) =
        dispatch-Refused k old n s4 w2 ar.0 (ground (arith, bad, pid)) in
      let whole : thread_exit k s w
          ≡ (halts, (dispatch k old n s4 w2).1, (dispatch k old n s4 w2).2) =
        exit_stops s w old on cur user
        ∙ ap (stop k) reach
        ∙ stays_stops (dispatch k old n s4 w2) outcome in
      (
        ap (λ r. r.0) whole,
        ap (λ r. r.1.current) whole ∙ current,
        ap (λ r. (r.1.tcbs old).state) whole ∙ running,
        ap (λ r. (r.1.tcbs n).state) whole ∙ zombie,
      )
