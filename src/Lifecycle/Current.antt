-- ===== src/Lifecycle/Current.antt =====
-- kernel/core/process/process.c: the start of the table, the choice of the current process and its end
-- keep the counts of processes.
use nexus_os.Base.{
  ℕ, zero, suc, ◌-◌, ◌<◌, ◌≤◌, ◌≡◌, inl, inr, refl, sym, ap, ◌∙◌, Bool, true, false, Option, none,
  some, List, [], ◌∷◌, map, arith, Bool-cases, Option-cases, ◌==◌, if◌then◌else◌, find_index,
  find_index-some, get_or, length,
}
use nexus_os.Base.Count.{count_free_none, count_free-le}
use nexus_os.Process.{
  Process, ProcessState, unused, ready, running, zombie, ProcessTable, is_unused, is_zombie,
  max_count, no_process, owns_pid, process_get, process_at,
}
use nexus_os.Ipc.{nexus_ipc_process_terminate}
use nexus_os.Ipc.States.{terminate-SameStates}
use nexus_os.Lifecycle.{
  Processes, table_of, set_state, increment64, is_running, may_run, stop_running, ended,
  process_init, process_set_current, process_clear_current, process_exit_with_code,
}
use nexus_os.Lifecycle.Counts.{
  not_live, not_zombie, count_slots, Counted, IsCounted, count_put, put_Counted, same_Counted,
  slot_small, at_put,
}

state_used :
    (st : ProcessState)
    → is_unused st ≡ false
    → is_zombie st ≡ false
    → (not_live st ≡ false) × (not_zombie st ≡ true)
state_used unused e f = cc
state_used ready e f = (refl, refl)
state_used running e f = (refl, refl)
state_used zombie e f = cc

pub state_zombie :
    (st : ProcessState) → is_zombie st ≡ true → (not_live st ≡ true) × (not_zombie st ≡ false)
state_zombie unused e = cc
state_zombie ready e = cc
state_zombie running e = cc
state_zombie zombie e = (refl, refl)

pub state_unused :
    (st : ProcessState) → is_unused st ≡ true → (not_live st ≡ true) × (not_zombie st ≡ true)
state_unused unused e = (refl, refl)
state_unused ready e = cc
state_unused running e = cc
state_unused zombie e = cc

state_running :
    (st : ProcessState) → is_running st ≡ true → (not_live st ≡ false) × (not_zombie st ≡ true)
state_running unused e = cc
state_running ready e = cc
state_running running e = (refl, refl)
state_running zombie e = cc

state_can_run :
    (st : ProcessState) → may_run st ≡ true → (not_live st ≡ false) × (not_zombie st ≡ true)
state_can_run unused e = cc
state_can_run ready e = (refl, refl)
state_can_run running e = (refl, refl)
state_can_run zombie e = cc

-- Who is found is used.
found_used :
    (t : ProcessTable) (pid slot : ℕ)
    → process_get t pid ≡ some slot
    → is_unused (process_at t slot).state ≡ false
unfolding process_get
found_used t pid slot e =
    let search : find_index (owns_pid pid) t.processes ≡ some slot = ground (arith, e) in
    let (small, owned, before) =
      find_index-some (owns_pid pid) t.processes no_process slot search in
    ground (arith, owned)

pub count_small : (test : ProcessState → Bool) (t : ProcessTable) → count_slots test t ≤ max_count
count_small test t = count_free-le (λ slot. test (process_at t slot).state) max_count

pub exit-IsCounted :
    (s : Processes) (pid code reason : ℕ)
    → IsCounted s
    → IsCounted (process_exit_with_code pid code reason s).1
unfolding process_exit_with_code
exit-IsCounted s pid code reason v = elim (Option-cases (process_get (table_of s) pid)) [
  | inl e ↦ rw (e, process_exit_with_code) v
  | inr (slot, e) ↦ elim (Bool-cases (is_zombie (process_at (table_of s) slot).state)) [
    | inl f ↦ rw (e, f, process_exit_with_code) v
    | inr f ↦
        let t = table_of s in
        let t1 = (nexus_ipc_process_terminate s.ipc pid).table in
        let same = terminate-SameStates s.ipc pid in
        let v1 = same_Counted t t1 s.process_count s.zombie_count same v in
        let small = slot_small t pid slot s.process_count s.zombie_count v e in
        let (alive, no_zombie) = state_used (process_at t slot).state (found_used t pid slot e) f in
        let alive1 = ap not_live (same.same_state slot) ∙ alive in
        let no_zombie1 = ap not_zombie (same.same_state slot) ∙ no_zombie in
        let p = ended code reason (process_at t1 slot) in
        rw (e, f, process_exit_with_code)
          (put_Counted t1 s.process_count s.zombie_count (s.process_count - 1)
            (increment64 s.zombie_count) slot p false true true false v1 small alive1 refl
            no_zombie1 refl
            (omega (
              arith,
              v1.count_live,
              count_put not_live t1 slot p false true v1.slots small alive1 refl,
            ))
            (omega (arith, v1.count_zombies, count_small not_zombie t1)))
  ]
]

-- stop_running keeps the counts, and a slot that counts as live.
stop_running-Counted :
    (t : ProcessTable) (live zombies pid : ℕ) (o : Option ℕ)
    → Counted t live zombies
    → ((slot : ℕ) → o ≡ some slot → slot < max_count)
    → Counted (stop_running t o) live zombies
unfolding stop_running
stop_running-Counted t live zombies pid none v small = v
stop_running-Counted t live zombies pid (some old) v small =
    elim (Bool-cases (is_running (process_at t old).state)) [
      | inr e ↦ rw (e, stop_running) v
      | inl e ↦
          let (alive, no_zombie) = state_running (process_at t old).state e in
          rw (e, stop_running)
            (put_Counted t live zombies live zombies old (set_state ready (process_at t old)) false
              false true true v (small old refl) alive refl no_zombie refl refl refl)
    ]

stop_running-live :
    (t : ProcessTable) (o : Option ℕ) (k : ℕ)
    → ((slot : ℕ) → o ≡ some slot → slot < length t.processes)
    → (not_live (process_at t k).state ≡ false) × (not_zombie (process_at t k).state ≡ true)
    → (not_live (process_at (stop_running t o) k).state ≡ false)
      × (not_zombie (process_at (stop_running t o) k).state ≡ true)
unfolding stop_running
stop_running-live t none k small h = h
stop_running-live t (some old) k small h = elim (Bool-cases (is_running (process_at t old).state)) [
  | inr e ↦ rw (e, stop_running) h
  | inl e ↦
      let at = at_put t old k (set_state ready (process_at t old)) (small old refl) in
      rw (e, stop_running, at)
        (either (old == k) (set_state ready (process_at t old)) (process_at t k) (refl, refl) h)
]
  where
    either :
        (b : Bool) (p q : Process)
        → (not_live p.state ≡ false) × (not_zombie p.state ≡ true)
        → (not_live q.state ≡ false) × (not_zombie q.state ≡ true)
        → (not_live (if b then p else q).state ≡ false)
          × (not_zombie (if b then p else q).state ≡ true)
    either true p q h k = h
    either false p q h k = k

pub clear-IsCounted : (s : Processes) → IsCounted s → IsCounted (process_clear_current s)
unfolding process_clear_current
clear-IsCounted s v =
    stop_running-Counted (table_of s) s.process_count s.zombie_count s.current_pid
      (process_get (table_of s) s.current_pid) v
      (λ slot e. slot_small (table_of s) s.current_pid slot s.process_count s.zombie_count v e)

-- The process that runs, unless it is the one chosen.
abbrev not_same : ℕ → Option ℕ → Option ℕ
not_same next o = elim o [ none ↦ none | some old ↦ if old == next then none else some old ]

not_same-some : (next : ℕ) (o : Option ℕ) (slot : ℕ) → not_same next o ≡ some slot → o ≡ some slot
not_same-some next none slot e = cc
not_same-some next (some old) slot e = ground (arith, e)

pub set_current-IsCounted :
    (s : Processes) (pid : ℕ) → IsCounted s → IsCounted (process_set_current pid s).1
unfolding process_set_current
set_current-IsCounted s pid v = elim (Option-cases (process_get (table_of s) pid)) [
  | inl e ↦ rw (e, process_set_current) v
  | inr (next, e) ↦ elim (Bool-cases (may_run (process_at (table_of s) next).state)) [
    | inr f ↦ rw (e, f, process_set_current) v
    | inl f ↦
        let t = table_of s in
        let o = not_same next (process_get t s.current_pid) in
        let inside : (slot : ℕ) → o ≡ some slot → slot < max_count = λ slot h.
          slot_small t s.current_pid slot s.process_count s.zombie_count v
            (not_same-some next (process_get t s.current_pid) slot h) in
        let t1 = stop_running t o in
        let v1 = stop_running-Counted t s.process_count s.zombie_count pid o v inside in
        let (alive, no_zombie) =
          stop_running-live t o next (λ slot h. omega (arith, inside slot h, v.slots))
            (state_can_run (process_at t next).state f) in
        let small = slot_small t pid next s.process_count s.zombie_count v e in
        rw (e, f, process_set_current)
          (put_Counted t1 s.process_count s.zombie_count s.process_count s.zombie_count next
            (set_state running (process_at t1 next)) false false true true v1 small alive refl
            no_zombie refl refl refl)
  ]
]

-- process_init leaves every slot unused.
all_unused :
    (xs : List Process) (k : ℕ) → (get_or (map (set_state unused) xs) k no_process).state ≡ unused
all_unused [] k = refl
all_unused (x ∷ xs) zero = refl
all_unused (x ∷ xs) (suc k) = all_unused xs k

length-map_unused : (xs : List Process) → length (map (set_state unused) xs) ≡ length xs
length-map_unused [] = refl
length-map_unused (x ∷ xs) = ap suc (length-map_unused xs)

pub init-IsCounted :
    (s : Processes) → length (table_of s).processes ≡ max_count → IsCounted (process_init s)
unfolding process_init
init-IsCounted s slots = record {
  slots = length-map_unused (table_of s).processes ∙ slots;
  ready_table = refl;
  count_live =
      sym (count_free_none _ max_count (λ q lt. ap not_live (all_unused (table_of s).processes q)));
  count_zombies =
      sym
        (count_free_none _ max_count (λ q lt. ap not_zombie (all_unused (table_of s).processes q)));
}
