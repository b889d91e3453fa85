-- ===== src/Sync/Tests.antt =====
-- A mutex that the running thread owns and a blocked one waits for.
use nexus_os.Base.{ℕ, ◌≡◌, ◌⊎◌, refl, true, List, [], ◌∷◌, arith, replicate}
use nexus_os.Scheduler.Waiting.Fifo.{is_line, elem}
use nexus_os.Scheduler.Tests.{three_threads}
use nexus_os.Sync.{Mutex, Op, try_lock, lock, unlock, apply, run}
use nexus_os.Sync.Line.{holders, IsSound, Has, line_run, run-Has}
use nexus_os.Sync.Handover.{no_overtaking}

abbrev held : Mutex
held = record {
  owner = 1;
  locked = true;
  waiters = record { ids = 2 ∷ replicate 7 0; head = 0; count = 1 };
}

held-IsSound : IsSound held
unfolding is_line elem
held-IsSound = record {
  queue = record { slots = refl; head_in = omega arith; count_in = omega arith; ordered = refl };
  nobody = λ e. absurd (ground arith);
}

abbrev calls : List Op
calls = lock three_threads ∷ unlock three_threads ∷ try_lock three_threads ∷ []

run-Has_example : Has (line_run (1 ∷ 2 ∷ []) calls) (run held calls)
run-Has_example = run-Has held calls held-IsSound

no_overtaking_example :
    (behind' : List ℕ) × ((holders (apply held (unlock three_threads)) ≡ 1 ∷ 2 ∷ behind')
      ⊎ (holders (apply held (unlock three_threads)) ≡ 2 ∷ behind'))
no_overtaking_example = no_overtaking held (unlock three_threads) 1 2 [] [] held-IsSound refl
