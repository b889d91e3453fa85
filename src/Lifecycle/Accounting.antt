-- ===== src/Lifecycle/Accounting.antt =====
-- kernel/core/process/process.c: every call keeps the counts of processes.
use nexus_os.Base.{
  ℕ, ◌-◌, ◌<◌, ◌≡◌, inl, inr, refl, sym, ap, ◌∙◌, subst, true, false, ◌||◌, not, List, [], ◌∷◌,
  arith, Bool-cases, Option-cases, ◌==◌, find_index, find_index-some, length,
}
use nexus_os.Process.{
  Process, is_unused, is_zombie, max_count, no_process, process_get, process_at, put_process,
}
use nexus_os.UserMemory.{PagingServices, process_unmap_user_memory}
use nexus_os.UserMemory.Success.{unmap_table}
use nexus_os.Ipc.States.{SameStates, put-SameStates}
use nexus_os.Lifecycle.{
  Processes, SpaceServices, table_of, increment64, take_pid, begun, completed, reaped,
  is_own_thread, process_init, create_ready, process_create, process_reap, Op, create, choose,
  clear_current, exit, reap, step, run,
}
use nexus_os.Lifecycle.Counts.{
  not_live, not_zombie, IsCounted, count_put, put_Counted, same_Counted, slot_small,
}
use nexus_os.Lifecycle.Current.{
  state_zombie, state_unused, count_small, exit-IsCounted, clear-IsCounted, set_current-IsCounted,
  init-IsCounted,
}

module _ {W : Type 0} (k : PagingServices W) (spaces : SpaceServices W) where
  reap-IsCounted :
      (s : Processes) (pid thread : ℕ) (w : W)
      → IsCounted s
      → IsCounted (process_reap k spaces pid thread s w).1
  unfolding process_reap
  reap-IsCounted s pid thread w v = elim (Option-cases (process_get (table_of s) pid)) [
    | inl e ↦ rw (e, process_reap) v
    | inr (slot, e) ↦
        let t = table_of s in
        elim (Bool-cases (
          not (is_zombie (process_at t slot).state)
          || not (is_own_thread thread (process_at t slot)))) [
            | inl f ↦ rw (e, f, process_reap) v
            | inr f ↦
                let t1 = (process_unmap_user_memory k t pid w).1 in
                let same : SameStates t t1 =
                  rw (unmap_table k t pid slot w e) (put-SameStates t slot _ refl) in
                let v1 = same_Counted t t1 s.process_count s.zombie_count same v in
                let small = slot_small t pid slot s.process_count s.zombie_count v e in
                let dead : is_zombie (process_at t slot).state ≡ true = ground (arith, f) in
                let (no_live, undead) = state_zombie (process_at t slot).state dead in
                let no_live1 = ap not_live (same.same_state slot) ∙ no_live in
                let undead1 = ap not_zombie (same.same_state slot) ∙ undead in
                let p = reaped (process_at t1 slot) in
                rw (e, f, process_reap)
                  (put_Counted t1 s.process_count s.zombie_count s.process_count
                    (s.zombie_count - 1) slot p true true false true v1 small no_live1 refl undead1
                    refl refl
                    (omega (
                      arith,
                      v1.count_zombies,
                      count_put not_zombie t1 slot p false true v1.slots small undead1 refl,
                    )))
          ]
  ]

  create_ready-IsCounted :
      (s : Processes) (parent_pid : ℕ) (w : W)
      → IsCounted s
      → IsCounted (create_ready k spaces parent_pid s w).1
  unfolding create_ready
  create_ready-IsCounted s parent_pid w v =
      let t = table_of s in
      let free_slot = λ (p : Process). is_unused p.state in
      elim (Option-cases (find_index free_slot t.processes)) [
        | inl e ↦ rw (e, create_ready) v
        | inr (slot, e) ↦
            let (inside, free, before) = find_index-some free_slot t.processes no_process slot e in
            let small : slot < max_count = omega (arith, inside, v.slots) in
            let (no_live, undead) = state_unused (process_at t slot).state free in
            let cr3 = (spaces.paging_create_address_space w).0 in
            let p =
              begun t (take_pid s.next_pid).0 parent_pid (spaces.scheduler_ticks w) cr3
                (process_at t slot) in
            elim (Bool-cases (cr3 == 0)) [
              | inl failed ↦
                  rw (e, failed, create_ready)
                    (same_Counted t (put_process t slot p) s.process_count s.zombie_count
                      (put-SameStates t slot p refl) v)
              | inr made ↦
                  rw (e, made, create_ready)
                    (put_Counted t s.process_count s.zombie_count (increment64 s.process_count)
                      s.zombie_count slot (completed p) true false true true v small no_live refl
                      undead refl (omega (arith, v.count_live, count_small not_live t)) refl)
            ]
      ]

  create-IsCounted :
      (s : Processes) (parent_pid : ℕ) (w : W)
      → IsCounted s
      → IsCounted (process_create k spaces parent_pid s w).1
  unfolding process_create
  create-IsCounted s parent_pid w v =
      let now : process_create k spaces parent_pid s w ≡ create_ready k spaces parent_pid s w =
        ground (arith, v.ready_table) in
      subst (λ r. IsCounted r.1) (sym now) (create_ready-IsCounted s parent_pid w v)

  step-IsCounted :
      (s : Processes) (w : W) (op : Op k spaces)
      → IsCounted s
      → IsCounted (step k spaces (s, w) op).0
  unfolding step
  step-IsCounted s w (create parent_pid) v = create-IsCounted s parent_pid w v
  step-IsCounted s w (choose pid) v = set_current-IsCounted s pid v
  step-IsCounted s w clear_current v = clear-IsCounted s v
  step-IsCounted s w (exit pid code reason) v = exit-IsCounted s pid code reason v
  step-IsCounted s w (reap pid thread) v = reap-IsCounted s pid thread w v

  run_keeps :
      (ops : List (Op k spaces)) (m : Processes × W)
      → IsCounted m.0
      → IsCounted (run k spaces m ops).0
  unfolding run
  run_keeps [] m v = v
  run_keeps (op ∷ ops) m v = run_keeps ops (step k spaces m op) (step-IsCounted m.0 m.1 op v)

  -- From process_init on, on a table of eight slots and whatever the address spaces do, any calls of
  -- process_create, process_set_current, process_clear_current, process_exit_with_code and
  -- process_reap leave process_count the number of ready and running processes and
  -- process_zombie_count the number of zombies.
  pub run-IsCounted :
      (s : Processes) (w : W) (ops : List (Op k spaces))
      → length (table_of s).processes ≡ max_count
      → IsCounted (run k spaces (process_init s, w) ops).0
  run-IsCounted s w ops slots = run_keeps ops (process_init s, w) (init-IsCounted s slots)
