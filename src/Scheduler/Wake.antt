-- ===== src/Scheduler/Wake.antt =====
-- Waking changes no thread's identity and blocks none.
use nexus_os.Base.{
  ℕ, zero, suc, ◌+◌, ◌≡◌, refl, ap, ◌∙◌, false, Option, none, some, inl, inr, arith, Bool-cases,
  Option-cases,
}
use nexus_os.Scheduler.Waiting.{max_threads}
use nexus_os.Scheduler.{
  Tcb, Scheduler, is_blocked, thread_ready, link, mark, ready_append, find_from, find_thread_by_id,
  scheduler_wake_thread_locked,
}

-- The same threads, none of them newly blocked.
pub record Alike (f g : ℕ → Tcb) : Type 0 where
  pub ids : (j : ℕ) → (g j).id ≡ (f j).id
  pub lives : (j : ℕ) → (g j).live ≡ (f j).live
  pub unblocked : (j : ℕ) → is_blocked (f j).state ≡ false → is_blocked (g j).state ≡ false

pub Alike-refl : (f : ℕ → Tcb) → Alike f f
Alike-refl f = record { ids = λ j. refl; lives = λ j. refl; unblocked = λ j h. h }

pub Alike-trans : (f g h : ℕ → Tcb) → Alike f g → Alike g h → Alike f h
Alike-trans f g h a b = record {
  ids = λ j. b.ids j ∙ a.ids j;
  lives = λ j. b.lives j ∙ a.lives j;
  unblocked = λ j e. b.unblocked j (a.unblocked j e);
}

link-Alike : (f : ℕ → Tcb) (i : ℕ) (p : Option ℕ) → Alike f (link f i p)
link-Alike f i p = record {
  ids = λ j. ground (arith, ap (λ k. (f k).id) {x = i} {y = j});
  lives = λ j. ground (arith, ap (λ k. (f k).live) {x = i} {y = j});
  unblocked = λ j h. ground (arith, h, ap (λ k. (f k).state) {x = i} {y = j});
}

mark-Alike : (f : ℕ → Tcb) (i : ℕ) → Alike f (mark f i thread_ready)
mark-Alike f i = record {
  ids = λ j. ground (arith, ap (λ k. (f k).id) {x = i} {y = j});
  lives = λ j. ground (arith, ap (λ k. (f k).live) {x = i} {y = j});
  unblocked = λ j h. ground (arith, h);
}

ready_append-Alike : (s : Scheduler) (t : ℕ) → Alike s.tcbs (ready_append t s).tcbs
unfolding ready_append
ready_append-Alike s t = elim (Option-cases s.ready_tail) [
  | inl e ↦ rw (e, ready_append) (link-Alike s.tcbs t none)
  | inr (l, e) ↦
      rw (e, ready_append)
        (Alike-trans s.tcbs (link s.tcbs t none) (link (link s.tcbs t none) l (some t))
          (link-Alike s.tcbs t none) (link-Alike (link s.tcbs t none) l (some t)))
]

pub wake-Alike : (s : Scheduler) (id : ℕ) → Alike s.tcbs (scheduler_wake_thread_locked id s).tcbs
unfolding scheduler_wake_thread_locked
wake-Alike s id = elim (Option-cases (find_thread_by_id s id)) [
  | inl e ↦ rw (e, scheduler_wake_thread_locked) (Alike-refl s.tcbs)
  | inr (t, e) ↦ elim (Bool-cases (is_blocked (s.tcbs t).state)) [
    | inr other ↦ rw (e, other, scheduler_wake_thread_locked) (Alike-refl s.tcbs)
    | inl blocked ↦
        let marked = record s { tcbs = mark s.tcbs t thread_ready } in
        rw (e, blocked, scheduler_wake_thread_locked)
          (Alike-trans s.tcbs marked.tcbs (ready_append t marked).tcbs (mark-Alike s.tcbs t)
            (ready_append-Alike marked t))
  ]
]

ready_append_blocked :
    (s : Scheduler) (t j : ℕ)
    → is_blocked (s.tcbs j).state ≡ false
    → is_blocked ((ready_append t s).tcbs j).state ≡ false
ready_append_blocked s t j h = (ready_append-Alike s t).unblocked j h

pub woken-unblocked :
    (s : Scheduler) (id t : ℕ)
    → find_thread_by_id s id ≡ some t
    → is_blocked ((scheduler_wake_thread_locked id s).tcbs t).state ≡ false
unfolding scheduler_wake_thread_locked
woken-unblocked s id t e = elim (Bool-cases (is_blocked (s.tcbs t).state)) [
  | inr other ↦ rw (e, other, scheduler_wake_thread_locked) other
  | inl blocked ↦
      rw (e, blocked, scheduler_wake_thread_locked)
        (ready_append_blocked (record s { tcbs = mark s.tcbs t thread_ready }) t t (ground arith))
]

find_from-Alike :
    (f g : ℕ → Tcb) (id rounds i : ℕ)
    → Alike f g
    → find_from g id rounds i ≡ find_from f id rounds i
unfolding find_from
find_from-Alike f g id zero i a = refl
find_from-Alike f g id (suc rounds) i a =
    ground (arith, a.ids i, a.lives i, find_from-Alike f g id rounds (i + 1) a)

pub find-Alike :
    (s s' : Scheduler) (id : ℕ)
    → Alike s.tcbs s'.tcbs
    → find_thread_by_id s' id ≡ find_thread_by_id s id
unfolding find_thread_by_id
find-Alike s s' id a = find_from-Alike s.tcbs s'.tcbs id max_threads 0 a
