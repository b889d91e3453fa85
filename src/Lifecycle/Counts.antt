-- ===== src/Lifecycle/Counts.antt =====
-- kernel/core/process/process.c: process_count and process_zombie_count count the processes.
use nexus_os.Base.{
  ℕ, ◌+◌, ◌<◌, ◌≡◌, inl, inr, refl, sym, ap, ◌∙◌, subst, Bool, true, false, some, arith, Bool-cases,
  ◌==◌, if◌then◌else◌, length, length-set, get_or-set_self, get_or-set_ne,
}
use nexus_os.Base.Count.{count_free, count_free_same, count_free_take}
use nexus_os.Process.{
  Process, ProcessState, ready, running, zombie, ProcessTable, max_count, no_process, process_get,
  process_at, put_process,
}
use nexus_os.Ipc.Handles.{process_get-some}
use nexus_os.Ipc.States.{SameStates}
use nexus_os.Lifecycle.{Processes, table_of}

-- Neither ready nor running, and not a zombie, as the counts see a slot.
abbrev pub not_live : ProcessState → Bool
not_live ready = false
not_live running = false
not_live _ = true

abbrev pub not_zombie : ProcessState → Bool
not_zombie zombie = false
not_zombie _ = true

-- The number of slots whose state fails the test.
abbrev pub count_slots : (ProcessState → Bool) → ProcessTable → ℕ
count_slots test t = count_free (λ slot. test (process_at t slot).state) max_count

-- The two counts of a table of eight slots.
pub record Counted (t : ProcessTable) (live zombies : ℕ) : Type 0 where
  pub slots : length t.processes ≡ max_count
  pub ready_table : t.table_ready ≡ true
  pub count_live : live ≡ count_slots not_live t
  pub count_zombies : zombies ≡ count_slots not_zombie t

abbrev pub IsCounted : Processes → Type 0
IsCounted s = Counted (table_of s) s.process_count s.zombie_count

same_tests :
    (f g : ℕ → Bool) (p : ℕ) (b : Bool)
    → f p ≡ b
    → ((q : ℕ) → g q ≡ (if p == q then b else f q))
    → (q : ℕ) → g q ≡ f q
same_tests f g p b at same q = elim (Bool-cases (p == q)) [
  | inl e ↦ let eq : p ≡ q = ground (arith, e) in same q ∙ rw e (sym (subst (λ r. f r ≡ b) eq at))
  | inr e ↦ same q ∙ rw e refl
]

-- The count after a change at p.
recount :
    (f g : ℕ → Bool) (p n : ℕ) (b c : Bool)
    → p < n
    → f p ≡ b
    → ((q : ℕ) → g q ≡ (if p == q then c else f q))
    → count_free g n + (if b then 0 else 1) ≡ count_free f n + (if c then 0 else 1)
recount f g p n true true small at same =
    omega (arith, count_free_same g f n (λ q lt. same_tests f g p true at same q))
recount f g p n true false small at same =
    let now : g p ≡ false = ground (arith, same p) in
    omega (arith, count_free_take g f p n small now (λ q. back q))
  where
    back : (q : ℕ) → f q ≡ (if p == q then true else g q)
    back q = elim (Bool-cases (p == q)) [
      | inl e ↦ let eq : p ≡ q = ground (arith, e) in rw e (subst (λ r. f r ≡ true) eq at)
      | inr e ↦ rw e (sym (same q ∙ rw e refl))
    ]
recount f g p n false true small at same = omega (arith, count_free_take f g p n small at same)
recount f g p n false false small at same =
    omega (arith, count_free_same g f n (λ q lt. same_tests f g p false at same q))

pub at_put :
    (t : ProcessTable) (slot q : ℕ) (p : Process)
    → slot < length t.processes
    → process_at (put_process t slot p) q ≡ (if slot == q then p else process_at t q)
at_put t slot q p small = elim (Bool-cases (slot == q)) [
  | inl e ↦
      let eq : slot ≡ q = ground (arith, e) in
      rw e (
        subst (λ r. process_at (put_process t slot p) r ≡ p) eq
          (get_or-set_self t.processes slot p no_process small))
  | inr e ↦ rw e (get_or-set_ne t.processes slot q p no_process (λ same. ground (arith, e, same)))
]

-- The count of slots after a store to one of them.
pub count_put :
    (test : ProcessState → Bool) (t : ProcessTable) (slot : ℕ) (p : Process) (b c : Bool)
    → length t.processes ≡ max_count
    → slot < max_count
    → test (process_at t slot).state ≡ b
    → test p.state ≡ c
    → count_slots test (put_process t slot p) + (if b then 0 else 1)
      ≡ count_slots test t + (if c then 0 else 1)
count_put test t slot p b c slots small before after =
    recount (λ q. test (process_at t q).state)
      (λ q. test (process_at (put_process t slot p) q).state) slot max_count b c small before
      (λ q.
        ap (λ (r : Process). test r.state) (at_put t slot q p (omega (arith, slots, small)))
        ∙ split test slot q p (process_at t q) c after)
  where
    split :
        (test : ProcessState → Bool) (slot q : ℕ) (p r : Process) (c : Bool)
        → test p.state ≡ c
        → test (if slot == q then p else r).state ≡ (if slot == q then c else test r.state)
    split test slot q p r c e = ground (arith, e)

-- A store to a slot, with the counts that go with the states before and after.
pub put_Counted :
    (t : ProcessTable) (live zombies live' zombies' slot : ℕ) (p : Process) (b c b' c' : Bool)
    → Counted t live zombies
    → slot < max_count
    → not_live (process_at t slot).state ≡ b
    → not_live p.state ≡ c
    → not_zombie (process_at t slot).state ≡ b'
    → not_zombie p.state ≡ c'
    → live' + (if b then 0 else 1) ≡ live + (if c then 0 else 1)
    → zombies' + (if b' then 0 else 1) ≡ zombies + (if c' then 0 else 1)
    → Counted (put_process t slot p) live' zombies'
put_Counted t live zombies live' zombies' slot p b c b' c' v small e1 e2 e3 e4 n z = record {
  slots = length-set t.processes slot p ∙ v.slots;
  ready_table = v.ready_table;
  count_live = omega (arith, n, v.count_live, count_put not_live t slot p b c v.slots small e1 e2);
  count_zombies =
      omega (arith, z, v.count_zombies, count_put not_zombie t slot p b' c' v.slots small e3 e4);
}

-- The same states give the same counts.
pub same_Counted :
    (t t' : ProcessTable) (live zombies : ℕ)
    → SameStates t t'
    → Counted t live zombies
    → Counted t' live zombies
same_Counted t t' live zombies same v = record {
  slots = same.same_length ∙ v.slots;
  ready_table = same.same_ready ∙ v.ready_table;
  count_live =
      v.count_live
      ∙ count_free_same (λ q. not_live (process_at t q).state)
          (λ q. not_live (process_at t' q).state) max_count
          (λ q lt. ap not_live (sym (same.same_state q)));
  count_zombies =
      v.count_zombies
      ∙ count_free_same (λ q. not_zombie (process_at t q).state)
          (λ q. not_zombie (process_at t' q).state) max_count
          (λ q lt. ap not_zombie (sym (same.same_state q)));
}

-- The slot of a process is one of the table's.
pub slot_small :
    (t : ProcessTable) (pid slot live zombies : ℕ)
    → Counted t live zombies
    → process_get t pid ≡ some slot
    → slot < max_count
slot_small t pid slot live zombies v found =
    omega (arith, (process_get-some t pid slot found).0, v.slots)
