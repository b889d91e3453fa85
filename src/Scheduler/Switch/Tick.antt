-- ===== src/Scheduler/Switch/Tick.antt =====
-- The quantum: scheduler_tick_irq asks for a reschedule in time.
use nexus_os.Base.{ℕ, zero, suc, ◌+◌, ◌≤◌, ◌<◌, ◌≡◌, true, inl, inr, arith, Bool-cases, ltb}
use nexus_os.Scheduler.{Scheduler}
use nexus_os.Scheduler.Services.{Services}
use nexus_os.Scheduler.Switch.{count_down, scheduler_tick_irq}

module _ {W : Type 0} (k : Services W) where
  -- That many timer interrupts in a row.
  unfoldable pub tick_times : ℕ → Scheduler → W → Scheduler × W
  tick_times zero s w = (s, w)
  tick_times (suc n) s w = let (s1, w1) = scheduler_tick_irq k s w in tick_times n s1 w1

  tick_keeps :
      (s : Scheduler) (w : W)
      → s.ready ≡ true
      → s.reschedule_pending ≡ true
      → ((scheduler_tick_irq k s w).0.ready ≡ true)
        × ((scheduler_tick_irq k s w).0.reschedule_pending ≡ true)
  unfolding scheduler_tick_irq count_down
  tick_keeps s w on asked = (ground (arith, on), ground (arith, on, asked))

  tick_expires :
      (s : Scheduler) (w : W)
      → s.ready ≡ true
      → s.quantum_remaining ≤ 1
      → ((scheduler_tick_irq k s w).0.ready ≡ true)
        × ((scheduler_tick_irq k s w).0.reschedule_pending ≡ true)
  unfolding scheduler_tick_irq count_down
  tick_expires s w on low = (ground (arith, on), ground (arith, on, low))

  tick_counts :
      (s : Scheduler) (w : W)
      → s.ready ≡ true
      → 1 < s.quantum_remaining
      → ((scheduler_tick_irq k s w).0.ready ≡ true)
        × ((scheduler_tick_irq k s w).0.quantum_remaining + 1 ≡ s.quantum_remaining)
  unfolding scheduler_tick_irq count_down
  tick_counts s w on high = (ground (arith, on), ground (arith, on, high))

  asked_stays :
      (n : ℕ) (s : Scheduler) (w : W)
      → s.ready ≡ true
      → s.reschedule_pending ≡ true
      → (tick_times n s w).0.reschedule_pending ≡ true
  unfolding tick_times
  asked_stays zero s w on asked = asked
  asked_stays (suc n) s w on asked =
      let (s1, w1) = scheduler_tick_irq k s w in
      let (on1, asked1) = tick_keeps s w on asked in asked_stays n s1 w1 on1 asked1

  -- After at least one timer interrupt and at least as many as are left of the quantum, a
  -- reschedule is requested, if the scheduler is started and nothing but interrupts happened.
  pub tick_times_expire :
      (n : ℕ) (s : Scheduler) (w : W)
      → s.ready ≡ true
      → 0 < n
      → s.quantum_remaining ≤ n
      → (tick_times n s w).0.reschedule_pending ≡ true
  unfolding tick_times
  tick_times_expire zero s w on some_ticks enough = absurd (omega arith)
  tick_times_expire (suc n) s w on some_ticks enough =
      let (s1, w1) = scheduler_tick_irq k s w in
      elim (Bool-cases (ltb 1 s.quantum_remaining)) [
        | inl high ↦
            let (on1, less) = tick_counts s w on (ground (arith, high)) in
            tick_times_expire n s1 w1 on1 (ground (arith, high, enough)) (omega arith)
        | inr low ↦
            let (on1, asked1) = tick_expires s w on (ground (arith, low)) in
            asked_stays n s1 w1 on1 asked1
      ]
