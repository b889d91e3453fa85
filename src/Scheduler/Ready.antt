-- ===== src/Scheduler/Ready.antt =====
-- The ready list is a queue of threads.
use nexus_os.Base.{
  ℕ, ◌≡◌, refl, sym, ap, ◌∙◌, true, Option, none, some, List, [], ◌∷◌, ◌++◌, inl, inr, ◌<◌,
  Option-cases, arith, ◌==◌, if◌then◌else◌, length,
}
use nexus_os.Scheduler.Waiting.{max_threads}
use nexus_os.Scheduler.{
  Tcb, Scheduler, ThreadState, thread_ready, is_blocked, link, mark, ready_append, ready_pop,
  find_thread_by_id, scheduler_wake_thread_locked,
}
use nexus_os.Scheduler.Chain.{
  Chain, Apart, Distinct, last, Chain-same, Chain-ext, Chain-append, last-Apart, last-some,
  last-append, length-append, Distinct-append, link_next,
}

-- The ready list of the scheduler.
pub record Queued (s : Scheduler) (xs : List ℕ) : Type 0 where
  pub chain : Chain s.tcbs s.ready_head xs
  pub tail : s.ready_tail ≡ last xs
  pub counted : s.ready_count ≡ length xs
  pub distinct : Distinct xs

-- Appending a thread that is not in the ready list, of fewer than 8 threads, puts it at the end.
pub ready_append-Queued :
    (s : Scheduler) (t : ℕ) (xs : List ℕ)
    → Queued s xs
    → Apart t xs
    → length xs < max_threads
    → Queued (ready_append t s) (xs ++ (t ∷ []))
unfolding ready_append Chain
ready_append-Queued s t [] q a room =
    rw (q.tail, ready_append)
      (record {
        chain = (refl, ground arith);
        tail = refl;
        counted = ground (arith, q.counted);
        distinct = Distinct-append t [] q.distinct a;
      })
ready_append-Queued s t (x ∷ xs) q a room = elim (Option-cases (last (x ∷ xs))) [
  | inl none_last ↦ absurd (last-some x xs none_last)
  | inr (l, e) ↦
      rw (q.tail, e, ready_append)
        (record {
          chain =
              Chain-append s.tcbs (link (link s.tcbs t none) l (some t)) s.ready_head (x ∷ xs) l t
                q.chain q.distinct e (link_next (link s.tcbs t none) l l (some t) ∙ ground arith)
                (ground (
                  arith,
                  last-Apart t l (x ∷ xs) a e,
                  link_next (link s.tcbs t none) l t (some t),
                  link_next s.tcbs t t none,
                ))
                (λ j nl nt.
                  ground
                    (arith, link_next (link s.tcbs t none) l j (some t), link_next s.tcbs t j none))
                a;
          tail = sym (last-append t (x ∷ xs));
          counted = ground (arith, q.counted, length-append t (x ∷ xs));
          distinct = Distinct-append t (x ∷ xs) q.distinct a;
        })
]

-- Taking from a ready list that is not empty gives its first thread and leaves the others.
pub ready_pop-Queued :
    (s : Scheduler) (x : ℕ) (xs : List ℕ)
    → Queued s (x ∷ xs)
    → ((ready_pop s).0 ≡ some x) × Queued (ready_pop s).1 xs
unfolding ready_pop Chain Distinct
ready_pop-Queued s x [] q =
    rw (q.chain.0, q.chain.1, ready_pop)
      (
        refl,
        record {
          chain = refl;
          tail = refl;
          counted = ground (arith, q.counted);
          distinct = q.distinct.1;
        },
      )
ready_pop-Queued s x (y ∷ ys) q =
    rw (q.chain.0, q.chain.1.0, ready_pop)
      (
        refl,
        record {
          chain =
              Chain-same s.tcbs (link s.tcbs x none) (some y) (y ∷ ys) x (refl, q.chain.1.1)
                q.distinct.0 (λ j ne. ground (arith, link_next s.tcbs x j none));
          tail = q.tail;
          counted = ground (arith, q.counted);
          distinct = q.distinct.1;
        },
      )

ready_pop_empty : (s : Scheduler) → Queued s [] → ready_pop s ≡ (none, s)
unfolding ready_pop Chain
ready_pop_empty s q = ground (arith, q.chain)

pub mark_next : (f : ℕ → Tcb) (i j : ℕ) (v : ThreadState) → (mark f i v j).next ≡ (f j).next
mark_next f i j v = ground (arith, ap (λ k. (f k).next) {x = i} {y = j})

-- A list may be read from any table with the same links.
pub marked-Queued :
    (s : Scheduler) (t : ℕ) (v : ThreadState) (xs : List ℕ)
    → Queued s xs
    → Queued (record s { tcbs = mark s.tcbs t v }) xs
marked-Queued s t v xs q = record {
  chain = Chain-ext s.tcbs (mark s.tcbs t v) s.ready_head xs q.chain (λ j. mark_next s.tcbs t j v);
  tail = q.tail;
  counted = q.counted;
  distinct = q.distinct;
}

link_state : (f : ℕ → Tcb) (i j : ℕ) (p : Option ℕ) → (link f i p j).state ≡ (f j).state
link_state f i j p = ground (arith, ap (λ k. (f k).state) {x = i} {y = j})

ready_append_state :
    (s : Scheduler) (t j : ℕ) → ((ready_append t s).tcbs j).state ≡ (s.tcbs j).state
unfolding ready_append
ready_append_state s t j = elim (Option-cases s.ready_tail) [
  | inl e ↦ rw (e, ready_append) (link_state s.tcbs t j none)
  | inr (l, e) ↦
      rw (e, ready_append)
        (link_state (link s.tcbs t none) l j (some t) ∙ link_state s.tcbs t j none)
]

-- Waking the blocked thread of an id, where it is not in the ready list, of fewer than 8 threads,
-- puts it at the end and makes its state THREAD_READY; the states of the other threads stay.
pub scheduler_wake_thread_locked-Queued :
    (s : Scheduler) (id t : ℕ) (xs : List ℕ)
    → Queued s xs
    → Apart t xs
    → length xs < max_threads
    → find_thread_by_id s id ≡ some t
    → is_blocked (s.tcbs t).state ≡ true
    → Queued (scheduler_wake_thread_locked id s) (xs ++ (t ∷ []))
      × ((j : ℕ)
          → ((scheduler_wake_thread_locked id s).tcbs j).state
            ≡ (if t == j then thread_ready else (s.tcbs j).state))
unfolding scheduler_wake_thread_locked
scheduler_wake_thread_locked-Queued s id t xs q a room found blocked =
    let s1 = record s { tcbs = mark s.tcbs t thread_ready } in
    let r = ready_append-Queued s1 t xs (marked-Queued s t thread_ready xs q) a room in
    rw (found, blocked, scheduler_wake_thread_locked)
      (
        record { chain = r.chain; tail = r.tail; counted = r.counted; distinct = r.distinct },
        λ j. ready_append_state s1 t j ∙ ground arith,
      )
