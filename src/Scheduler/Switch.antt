-- ===== src/Scheduler/Switch.antt =====
-- kernel/core/scheduler/scheduler.c: the timer tick, the release of ended threads and
-- scheduler_process up to the exchange of the stacks.
pub mod Reap
pub mod Round
pub mod Tick
use nexus_os.Base.{
  ℕ, zero, suc, ◌+◌, ◌-◌, ◌*◌, ◌/◌, ◌%◌, ◌^◌, Bool, true, false, ◌||◌, ◌&&◌, not, Option, none,
  some, ltb, leb, ◌==◌, if◌then◌else◌,
}
use nexus_os.Scheduler.Waiting.{max_threads}
use nexus_os.Scheduler.{
  Tcb, Scheduler, ThreadState, thread_free, thread_running, thread_zombie, is_running, is_ready,
  is_zombie, is_due, store, mark, make_ready, ready_pop, wake_due_threads,
}
use nexus_os.Scheduler.Services.{Services, ProcessView}

-- How scheduler_process ends: it returns to its caller, exchanges the stacks of two threads, or
-- stops the processor.
pub data Switch : Type 0 where
  stays halts : Switch
  switches_to : ℕ → ℕ → Switch

abbrev pub points_to : ℕ → Option ℕ → Bool
points_to i none = false
points_to i (some j) = i == j

-- The cell of a released thread.
abbrev pub empty_tcb : Tcb → Tcb
empty_tcb t = record t {
  stack_base = 0;
  stack_size = 0;
  entry = 0;
  arg = 0;
  next = none;
  wake_tick = 0;
  live = false;
  state = thread_free;
}

abbrev pub can_run : ProcessView → Bool
can_run p = not p.ended && not (p.address_space_cr3 == 0)

-- ++t->switches
abbrev pub counted : Tcb → Tcb
counted t = record t { switches = (t.switches + 1) % 2 ^ 64 }

module _ {W : Type 0} (k : Services W) where
  -- The body of the loop in reap_zombies.
  pub reap : ℕ → Scheduler → W → Scheduler × W
  reap i s w =
      let t = s.tcbs i in
      let (ok, w1) = k.process_reap t.process_pid t.id w in
      let freed : W → W = λ w'. if t.stack_base == 0 then w' else k.kfree t.stack_base w' in
      let released = record s { tcbs = store s.tcbs i (empty_tcb t) } in
      if points_to i s.current || not t.live || not (is_zombie t.state)
      then (s, w)
      else if t.process_pid == 0
      then (released, freed w)
      else if ok
      then (released, freed w1)
      else (s, w1)

  pub reap_from : ℕ → ℕ → Scheduler → W → Scheduler × W
  reap_from zero i s w = (s, w)
  reap_from (suc rounds) i s w = let (s1, w1) = reap i s w in reap_from rounds (i + 1) s1 w1

  abbrev pub reap_zombies : Scheduler → W → Scheduler × W
  reap_zombies s w = reap_from (max_threads - 1) 1 s w

  -- From paging_switch_cr3 on.
  pub switch_to : ℕ → ℕ → ℕ → Scheduler → W → Switch × Scheduler × W
  switch_to old next cr3 s w =
      let left = store s.tcbs old (counted (s.tcbs old)) in
      (
        switches_to old next,
        record s {
          tcbs = store left next (counted (left next));
          context_switches = (s.context_switches + 1) % 2 ^ 64;
        },
        k.paging_switch_cr3 cr3 w,
      )

  -- The process of the next thread has ended or has no page tables.
  pub refuse : ℕ → ℕ → Scheduler → W → Switch × Scheduler × W
  refuse old next s w = (
    stays,
    record s {
      tcbs = mark (mark s.tcbs next thread_zombie) old thread_running;
      current = some old;
    },
    w,
  )

  -- From next->state = THREAD_RUNNING on.
  pub dispatch : ℕ → ℕ → Scheduler → W → Switch × Scheduler × W
  dispatch old next s w =
      let s1 = record s { tcbs = mark s.tcbs next thread_running; current = some next } in
      let pid = (s.tcbs next).process_pid in
      let kernel = switch_to old next (k.paging_kernel_cr3 w) s1 (k.process_clear_current w) in
      let user : Switch × Scheduler × W = elim (k.process_get pid w) [
        | none ↦ refuse old next s1 w
        | some p ↦
            if can_run p
            then switch_to old next p.address_space_cr3 s1 (k.process_set_current p.pid w)
            else refuse old next s1 w
      ] in
      if pid == 0 then kernel else user

  -- if (old->state == THREAD_RUNNING)
  abbrev pub requeue : ℕ → Scheduler → Scheduler
  requeue old s = if is_running (s.tcbs old).state then make_ready old s else s

  -- From pick_next on.
  pub choose : ℕ → Scheduler → W → Switch × Scheduler × W
  choose old s w =
      let (next, s1) = ready_pop s in
      let stay = record s1 { tcbs = mark s1.tcbs old thread_running } in
      elim next [
        | none ↦ if is_ready (s1.tcbs old).state then (stays, stay, w) else (halts, s1, w)
        | some n ↦ if n == old then (stays, stay, w) else dispatch old n s1 w
      ]

  pub schedule : Scheduler → W → Switch × Scheduler × W
  schedule s w = elim s.current [ none ↦ (stays, s, w) | some old ↦ choose old (requeue old s) w ]

  pub scheduler_process : Scheduler → W → Switch × Scheduler × W
  scheduler_process s w =
      let (s1, w1) = reap_zombies (wake_due_threads s) w in
      if not s.ready
      then (stays, s, w)
      else if not (s1.reschedule_pending || s1.wakeup_pending)
      then (stays, s1, w1)
      else schedule (record s1 { reschedule_pending = false; wakeup_pending = false }) w1

  -- The part of scheduler_tick_irq that counts the tick for the current thread.
  abbrev pub account : Scheduler → W → Scheduler × W
  account s w = elim s.current [
    | none ↦ (s, w)
    | some c ↦
        let t = s.tcbs c in
        (
          record s {
            tcbs = store s.tcbs c (record t { runtime_ticks = (t.runtime_ticks + 1) % 2 ^ 64 });
          },
          if t.process_pid == 0 then w else k.process_account_cpu_tick t.process_pid w,
        )
  ]

  -- The countdown of the quantum.
  pub count_down : Scheduler → Scheduler
  count_down s =
      if s.quantum_remaining - 1 == 0
      then record s {
        quantum_expirations = (s.quantum_expirations + 1) % 2 ^ 64;
        reschedule_pending = true;
        quantum_remaining = s.quantum_ticks;
      }
      else record s { quantum_remaining = s.quantum_remaining - 1 }

  pub scheduler_tick_irq : Scheduler → W → Scheduler × W
  scheduler_tick_irq s w =
      let (s1, w1) = account (record s { ticks = (s.ticks + 1) % 2 ^ 64 }) w in
      let s2 = count_down s1 in
      if not s.ready then (s, w) else (
        if is_due s2 then record s2 { wakeup_pending = true; reschedule_pending = true } else s2,
        k.nexus_watchdog_timer_tick w1,
      )
