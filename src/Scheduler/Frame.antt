-- ===== src/Scheduler/Frame.antt =====
-- What the operations on the ready list leave alone, and the two lists of threads together.
use nexus_os.Base.{
  ℕ, zero, suc, ◌+◌, ◌-◌, ◌<◌, ◌≡◌, refl, sym, ap, ◌∙◌, false, Option, none, some, List, [], ◌∷◌,
  ◌++◌, inl, inr, Option-cases, Bool-cases, arith, leb, length, subst,
}
use nexus_os.Scheduler.Waiting.{max_threads}
use nexus_os.Scheduler.{
  Tcb, Scheduler, thread_ready, is_zombie, link, mark, make_ready, ready_append, ready_pop,
  wake_first, wake_due, wake_due_threads,
}
use nexus_os.Scheduler.Chain.{Chain, Apart, Chain-ext, length-append}
use nexus_os.Scheduler.Ready.{ready_append-Queued, ready_pop-Queued, mark_next}
use nexus_os.Scheduler.Sleep.{link_same}
use nexus_os.Scheduler.Due.{Disjoint, Lists, Disjoint-append, ready_append_frame}

-- The second scheduler differs from the first in the two lists, and in the states of threads that
-- became ready.
pub record Moved (s s' : Scheduler) : Type 0 where
  pub current : s'.current ≡ s.current
  pub ready : s'.ready ≡ s.ready
  pub requested : s'.reschedule_pending ≡ s.reschedule_pending
  pub pids : (j : ℕ) → (s'.tcbs j).process_pid ≡ (s.tcbs j).process_pid
  pub alive : (j : ℕ) → is_zombie (s.tcbs j).state ≡ false → is_zombie (s'.tcbs j).state ≡ false

pub Moved-refl : (s : Scheduler) → Moved s s
Moved-refl s = record {
  current = refl;
  ready = refl;
  requested = refl;
  pids = λ j. refl;
  alive = λ j h. h;
}

pub Moved-trans : (r s t : Scheduler) → Moved r s → Moved s t → Moved r t
Moved-trans r s t a b = record {
  current = b.current ∙ a.current;
  ready = b.ready ∙ a.ready;
  requested = b.requested ∙ a.requested;
  pids = λ j. b.pids j ∙ a.pids j;
  alive = λ j h. b.alive j (a.alive j h);
}

link_state : (f : ℕ → Tcb) (i j : ℕ) (p : Option ℕ) → (link f i p j).state ≡ (f j).state
link_state f i j p = ground (arith, ap (λ k. (f k).state) {x = i} {y = j})

link_pid : (f : ℕ → Tcb) (i j : ℕ) (p : Option ℕ) → (link f i p j).process_pid ≡ (f j).process_pid
link_pid f i j p = ground (arith, ap (λ k. (f k).process_pid) {x = i} {y = j})

-- Appending to the ready list keeps the states.
pub ready_append_state :
    (s : Scheduler) (t j : ℕ) → ((ready_append t s).tcbs j).state ≡ (s.tcbs j).state
unfolding ready_append
ready_append_state s t j = elim (Option-cases s.ready_tail) [
  | inl e ↦ rw (e, ready_append) (link_state s.tcbs t j none)
  | inr (l, e) ↦
      rw (e, ready_append)
        (link_state (link s.tcbs t none) l j (some t) ∙ link_state s.tcbs t j none)
]

ready_append_pid :
    (s : Scheduler) (t j : ℕ) → ((ready_append t s).tcbs j).process_pid ≡ (s.tcbs j).process_pid
unfolding ready_append
ready_append_pid s t j = elim (Option-cases s.ready_tail) [
  | inl e ↦ rw (e, ready_append) (link_pid s.tcbs t j none)
  | inr (l, e) ↦
      rw (e, ready_append) (link_pid (link s.tcbs t none) l j (some t) ∙ link_pid s.tcbs t j none)
]

pub ready_append-Moved : (s : Scheduler) (t : ℕ) → Moved s (ready_append t s)
unfolding ready_append
ready_append-Moved s t =
    let alive : (j : ℕ)
        → is_zombie (s.tcbs j).state ≡ false
        → is_zombie ((ready_append t s).tcbs j).state ≡ false =
      λ j h. ap is_zombie (ready_append_state s t j) ∙ h in
    record {
      current = ground arith;
      ready = ground arith;
      requested = ground arith;
      pids = ready_append_pid s t;
      alive = alive;
    }

wake_first-Moved : (s : Scheduler) (t : ℕ) → Moved s (wake_first t s)
wake_first-Moved s t =
    let s1 = record s {
      tcbs = mark (link s.tcbs t none) t thread_ready;
      sleep_head = (s.tcbs t).next;
      sleeping_count = s.sleeping_count - 1;
    } in
    Moved-trans s s1 (ready_append t s1)
      (record {
        current = refl;
        ready = refl;
        requested = refl;
        pids = λ j. ground (arith, ap (λ k. (s.tcbs k).process_pid) {x = t} {y = j});
        alive = λ j h. ground (arith, h);
      })
      (ready_append-Moved s1 t)

wake_due-Moved : (fuel : ℕ) (s : Scheduler) → Moved s (wake_due fuel s)
unfolding wake_due
wake_due-Moved zero s = Moved-refl s
wake_due-Moved (suc fuel) s = elim (Option-cases s.sleep_head) [
  | inl e ↦
      let stops : wake_due (suc fuel) s ≡ s = ground (arith, e) in
      subst (Moved s) (sym stops) (Moved-refl s)
  | inr (t, e) ↦ elim (Bool-cases (leb (s.tcbs t).wake_tick s.ticks)) [
    | inl due ↦
        let goes_on : wake_due (suc fuel) s ≡ wake_due fuel (wake_first t s) =
          ground (arith, e, due) in
        subst (Moved s) (sym goes_on) (
          Moved-trans s (wake_first t s) (wake_due fuel (wake_first t s)) (wake_first-Moved s t)
            (wake_due-Moved fuel (wake_first t s)))
    | inr late ↦
        let stops : wake_due (suc fuel) s ≡ s = ground (arith, e, late) in
        subst (Moved s) (sym stops) (Moved-refl s)
  ]
]

pub wake_due_threads-Moved : (s : Scheduler) → Moved s (wake_due_threads s)
unfolding wake_due_threads
wake_due_threads-Moved s =
    let m = wake_due-Moved max_threads s in
    record {
      current = m.current;
      ready = m.ready;
      requested = m.requested;
      pids = m.pids;
      alive = m.alive;
    }

-- The lists do not depend on anything but the links.
pub Lists-same :
    (s s' : Scheduler) (rs zs : List ℕ)
    → Lists s rs zs
    → ((j : ℕ) → (s'.tcbs j).next ≡ (s.tcbs j).next)
    → (s'.ready_head ≡ s.ready_head)
      × (s'.ready_tail ≡ s.ready_tail)
      × (s'.ready_count ≡ s.ready_count)
      × (s'.sleep_head ≡ s.sleep_head)
      × (s'.sleeping_count ≡ s.sleeping_count)
    → Lists s' rs zs
Lists-same s s' rs zs v h (head, tail, count, sleep, sleeping) = record {
  queued = record {
    chain =
        subst (λ p. Chain s'.tcbs p rs) (sym head)
          (Chain-ext s.tcbs s'.tcbs s.ready_head rs v.queued.chain h);
    tail = tail ∙ v.queued.tail;
    counted = count ∙ v.queued.counted;
    distinct = v.queued.distinct;
  };
  sleeping = record {
    chain =
        subst (λ p. Chain s'.tcbs p zs) (sym sleep)
          (Chain-ext s.tcbs s'.tcbs s.sleep_head zs v.sleeping.chain h);
    counted = sleeping ∙ v.sleeping.counted;
    distinct = v.sleeping.distinct;
  };
  disjoint = v.disjoint;
  room = v.room;
}

pub ready_append-Lists :
    (s : Scheduler) (t : ℕ) (rs zs : List ℕ)
    → Lists s rs zs
    → Apart t rs
    → Apart t zs
    → length rs + length zs < max_threads
    → Lists (ready_append t s) (rs ++ (t ∷ [])) zs
unfolding ready_append
ready_append-Lists s t rs zs v ar az room =
    let head : (ready_append t s).sleep_head ≡ s.sleep_head = ground arith in
    let count : (ready_append t s).sleeping_count ≡ s.sleeping_count = ground arith in
    record {
      queued = ready_append-Queued s t rs v.queued ar (omega arith);
      sleeping = record {
        chain =
            subst (λ p. Chain (ready_append t s).tcbs p zs) (sym head)
              (ready_append_frame s t rs zs s.sleep_head v.queued.tail v.disjoint az
                v.sleeping.chain);
        counted = count ∙ v.sleeping.counted;
        distinct = v.sleeping.distinct;
      };
      disjoint = Disjoint-append t zs rs v.disjoint az;
      room = omega (arith, room, length-append t rs);
    }

pub make_ready-Lists :
    (s : Scheduler) (t : ℕ) (rs zs : List ℕ)
    → Lists s rs zs
    → Apart t rs
    → Apart t zs
    → length rs + length zs < max_threads
    → Lists (make_ready t s) (rs ++ (t ∷ [])) zs
make_ready-Lists s t rs zs v =
    ready_append-Lists (record s { tcbs = mark s.tcbs t thread_ready }) t rs zs
      (Lists-same s (record s { tcbs = mark s.tcbs t thread_ready }) rs zs v
        (λ j. mark_next s.tcbs t j thread_ready) (refl, refl, refl, refl, refl))

Disjoint-head : (x : ℕ) (xs zs : List ℕ) → Disjoint zs (x ∷ xs) → Apart x zs
unfolding Disjoint Apart
Disjoint-head x xs [] d = tt
Disjoint-head x xs (z ∷ zs) d = (λ e. d.0.0 (sym e), Disjoint-head x xs zs d.1)

Disjoint-tail : (x : ℕ) (xs zs : List ℕ) → Disjoint zs (x ∷ xs) → Disjoint zs xs
unfolding Disjoint Apart
Disjoint-tail x xs [] d = tt
Disjoint-tail x xs (z ∷ zs) d = (d.0.1, Disjoint-tail x xs zs d.1)

pub ready_pop-Lists :
    (s : Scheduler) (x : ℕ) (xs zs : List ℕ)
    → Lists s (x ∷ xs) zs
    → (s1 : Scheduler) × (ready_pop s ≡ (some x, s1))
      × Lists s1 xs zs
      × Moved s s1
      × ((j : ℕ) → (s1.tcbs j).state ≡ (s.tcbs j).state)
unfolding ready_pop Chain
ready_pop-Lists s x xs zs v =
    let (first, queued) = ready_pop-Queued s x xs v.queued in
    let head = v.queued.chain.0 in
    let sleep : (ready_pop s).1.sleep_head ≡ s.sleep_head = ground (arith, head) in
    let count : (ready_pop s).1.sleeping_count ≡ s.sleeping_count = ground (arith, head) in
    let cells : (ready_pop s).1.tcbs ≡ link s.tcbs x none = ground (arith, head) in
    let apart = Disjoint-head x xs zs v.disjoint in
    (
      (ready_pop s).1,
      ground (arith, first),
      record {
        queued = queued;
        sleeping = record {
          chain =
              subst (λ f. Chain f (ready_pop s).1.sleep_head zs) (sym cells)
                (subst (λ p. Chain (link s.tcbs x none) p zs) (sym sleep)
                  (link_same s.tcbs s.sleep_head none x zs v.sleeping.chain apart));
          counted = count ∙ v.sleeping.counted;
          distinct = v.sleeping.distinct;
        };
        disjoint = Disjoint-tail x xs zs v.disjoint;
        room = omega (arith, v.room);
      },
      record {
        current = ground (arith, head);
        ready = ground (arith, head);
        requested = ground (arith, head);
        pids = λ j. ap (λ f. (f j).process_pid) cells ∙ link_pid s.tcbs x j none;
        alive = λ j h.
            ap (λ f. is_zombie (f j).state) cells ∙ ap is_zombie (link_state s.tcbs x j none) ∙ h;
      },
      λ j. ap (λ f. (f j).state) cells ∙ link_state s.tcbs x j none,
    )
