-- ===== src/Scheduler/Due.antt =====
-- wake_due_threads moves the threads whose time has come from the sleep list to the ready list.
use nexus_os.Base.{
  ℕ, zero, suc, ◌+◌, ◌-◌, ◌≤◌, ◌≡◌, refl, sym, ap, ◌∙◌, Bool, true, false, Option, none, some, List,
  [], ◌∷◌, ◌++◌, append_assoc, append-nil, inl, inr, Option-cases, arith, ltb, leb, length, subst,
  ◌&&◌,
}
use nexus_os.Scheduler.Waiting.{max_threads}
use nexus_os.Scheduler.{
  Tcb, Scheduler, thread_ready, link, mark, ready_append, wake_first, wake_due, wake_due_threads,
  is_due,
}
use nexus_os.Scheduler.Chain.{
  Chain, Apart, Distinct, last, Chain-ext, last-Apart, Apart-append, length-append,
}
use nexus_os.Scheduler.Ready.{Queued, ready_append-Queued, mark_next}
use nexus_os.Scheduler.Sleep.{Sleeping, link_same, link_wake}

-- No thread of the first list is in the second.
unfoldable pub Disjoint : List ℕ → List ℕ → Type 0
Disjoint [] rs = Unit
Disjoint (z ∷ zs) rs = Apart z rs × Disjoint zs rs

-- The ready list and the sleep list.
pub record Lists (s : Scheduler) (rs zs : List ℕ) : Type 0 where
  pub queued : Queued s rs
  pub sleeping : Sleeping s zs
  pub disjoint : Disjoint zs rs
  pub room : length rs + length zs ≤ max_threads

last-Disjoint : (l : ℕ) (zs rs : List ℕ) → Disjoint zs rs → last rs ≡ some l → Apart l zs
unfolding Disjoint Apart
last-Disjoint l [] rs d e = tt
last-Disjoint l (z ∷ zs) rs d e = (last-Apart z l rs d.0 e, last-Disjoint l zs rs d.1 e)

pub Disjoint-append :
    (t : ℕ) (zs rs : List ℕ) → Disjoint zs rs → Apart t zs → Disjoint zs (rs ++ (t ∷ []))
unfolding Disjoint Apart
Disjoint-append t [] rs d a = tt
Disjoint-append t (z ∷ zs) rs d a =
    (Apart-append z t rs d.0 (λ e. a.0 (sym e)), Disjoint-append t zs rs d.1 a.1)

-- Appending a thread to the ready list leaves the chains that meet neither it nor the list.
pub ready_append_frame :
    (s : Scheduler) (t : ℕ) (rs zs : List ℕ) (p : Option ℕ)
    → s.ready_tail ≡ last rs
    → Disjoint zs rs
    → Apart t zs
    → Chain s.tcbs p zs
    → Chain (ready_append t s).tcbs p zs
unfolding ready_append
ready_append_frame s t rs zs p tail d a ch = elim (Option-cases (last rs)) [
  | inl e ↦ rw (tail, e, ready_append) (link_same s.tcbs p none t zs ch a)
  | inr (l, e) ↦
      rw (tail, e, ready_append)
        (link_same (link s.tcbs t none) p (some t) l zs (link_same s.tcbs p none t zs ch a)
          (last-Disjoint l zs rs d e))
]

ready_append_keeps :
    (s : Scheduler) (t : ℕ)
    → ((ready_append t s).sleep_head ≡ s.sleep_head)
      × ((ready_append t s).sleeping_count ≡ s.sleeping_count)
      × ((ready_append t s).ticks ≡ s.ticks)
      × ((j : ℕ) → ((ready_append t s).tcbs j).wake_tick ≡ (s.tcbs j).wake_tick)
unfolding ready_append
ready_append_keeps s t = elim (Option-cases s.ready_tail) [
  | inl e ↦ rw (e, ready_append) (refl, refl, refl, λ j. link_wake s.tcbs t j none)
  | inr (l, e) ↦
      rw (e, ready_append)
        (
          refl,
          refl,
          refl,
          λ j. link_wake (link s.tcbs t none) l j (some t) ∙ link_wake s.tcbs t j none,
        )
]

mark_wake : (f : ℕ → Tcb) (i j : ℕ) → (mark f i thread_ready j).wake_tick ≡ (f j).wake_tick
mark_wake f i j = ground (arith, ap (λ k. (f k).wake_tick) {x = i} {y = j})

-- The state just before the thread is appended.
abbrev taken_out : ℕ → Scheduler → Scheduler
taken_out t s = record s {
  tcbs = mark (link s.tcbs t none) t thread_ready;
  sleep_head = (s.tcbs t).next;
  sleeping_count = s.sleeping_count - 1;
}

taken_out-Queued :
    (s : Scheduler) (t : ℕ) (rs : List ℕ) → Queued s rs → Apart t rs → Queued (taken_out t s) rs
taken_out-Queued s t rs q a =
    let linked = link_same s.tcbs s.ready_head none t rs q.chain a in
    let f = link s.tcbs t none in
    record {
      chain =
          Chain-ext f (mark f t thread_ready) s.ready_head rs linked
            (λ j. mark_next f t j thread_ready);
      tail = q.tail;
      counted = q.counted;
      distinct = q.distinct;
    }

pub wake_first-Lists :
    (s : Scheduler) (t : ℕ) (rs zs : List ℕ)
    → Lists s rs (t ∷ zs)
    → Lists (wake_first t s) (rs ++ (t ∷ [])) zs
unfolding Disjoint Distinct Chain
wake_first-Lists s t rs zs v =
    let s1 = taken_out t s in
    let f = link s.tcbs t none in
    let (a, distinct) = v.sleeping.distinct in
    let (head, count, ticks, wakes) = ready_append_keeps s1 t in
    let before = link_same s.tcbs (s.tcbs t).next none t zs v.sleeping.chain.1 a in
    let marked =
      Chain-ext f (mark f t thread_ready) (s.tcbs t).next zs before
        (λ j. mark_next f t j thread_ready) in
    record {
      queued =
          ready_append-Queued s1 t rs (taken_out-Queued s t rs v.queued v.disjoint.0) v.disjoint.0
            (omega (arith, v.room));
      sleeping = record {
        chain =
            subst (λ p. Chain (ready_append t s1).tcbs p zs) (sym head)
              (ready_append_frame s1 t rs zs (s.tcbs t).next v.queued.tail v.disjoint.1 a marked);
        counted = omega (arith, count, v.sleeping.counted);
        distinct = distinct;
      };
      disjoint = Disjoint-append t zs rs v.disjoint.1 a;
      room = omega (arith, v.room, length-append t rs);
    }

pub wake_first_keeps :
    (s : Scheduler) (t : ℕ)
    → ((wake_first t s).ticks ≡ s.ticks)
      × ((j : ℕ) → ((wake_first t s).tcbs j).wake_tick ≡ (s.tcbs j).wake_tick)
wake_first_keeps s t =
    let (head, count, ticks, wakes) = ready_append_keeps (taken_out t s) t in
    (ticks, λ j. wakes j ∙ mark_wake (link s.tcbs t none) t j ∙ link_wake s.tcbs t j none)

pub length-both : (xs ys : List ℕ) → length (xs ++ ys) ≡ length xs + length ys
length-both [] ys = omega arith
length-both (x ∷ xs) ys = omega (arith, length-both xs ys)

-- All the threads are to wake at `now` at the latest.
unfoldable pub all_due : (ℕ → ℕ) → ℕ → List ℕ → Bool
all_due wake now [] = true
all_due wake now (d ∷ ds) = leb (wake d) now && all_due wake now ds

-- The first thread is to wake later.
abbrev pub none_due : (ℕ → ℕ) → ℕ → List ℕ → Bool
none_due wake now [] = true
none_due wake now (z ∷ zs) = ltb now (wake z)

stops : (fuel : ℕ) (s : Scheduler) → is_due s ≡ false → wake_due fuel s ≡ s
unfolding wake_due
stops zero s h = refl
stops (suc fuel) s h = ground (arith, h)

goes_on :
    (fuel : ℕ) (s : Scheduler) (t : ℕ)
    → s.sleep_head ≡ some t
    → leb (s.tcbs t).wake_tick s.ticks ≡ true
    → wake_due (suc fuel) s ≡ wake_due fuel (wake_first t s)
unfolding wake_due
goes_on fuel s t e h = ground (arith, e, h)

late_head :
    (s : Scheduler) (zs : List ℕ) (wake : ℕ → ℕ)
    → Chain s.tcbs s.sleep_head zs
    → ((j : ℕ) → (s.tcbs j).wake_tick ≡ wake j)
    → none_due wake s.ticks zs ≡ true
    → is_due s ≡ false
unfolding Chain
late_head s [] wake ch w late = ground (arith, ch)
late_head s (z ∷ zs) wake ch w late = ground (arith, ch.0, w z, late)

wake_due-Lists :
    (fuel : ℕ) (s : Scheduler) (rs ds zs : List ℕ) (wake : ℕ → ℕ)
    → Lists s rs (ds ++ zs)
    → ((j : ℕ) → (s.tcbs j).wake_tick ≡ wake j)
    → all_due wake s.ticks ds ≡ true
    → none_due wake s.ticks zs ≡ true
    → length ds ≤ fuel
    → Lists (wake_due fuel s) (rs ++ ds) zs × (is_due (wake_due fuel s) ≡ false)
unfolding all_due Chain
wake_due-Lists zero s rs (d ∷ ds) zs wake v w due late enough = absurd (omega arith)
wake_due-Lists fuel s rs [] zs wake v w due late enough =
    let idle = late_head s zs wake v.sleeping.chain w late in
    subst (λ s'. Lists s' (rs ++ []) zs × (is_due s' ≡ false)) (sym (stops fuel s idle))
      (subst (λ l. Lists s l zs) (sym (append-nil rs)) v, idle)
wake_due-Lists (suc fuel) s rs (d ∷ ds) zs wake v w due late enough =
    let (ticks, wakes) = wake_first_keeps s d in
    let next = goes_on fuel s d v.sleeping.chain.0 (ground (arith, w d, due)) in
    let rest =
      wake_due-Lists fuel (wake_first d s) (rs ++ (d ∷ [])) ds zs wake
        (wake_first-Lists s d rs (ds ++ zs) v) (λ j. wakes j ∙ w j)
        (ap (λ now. all_due wake now ds) ticks ∙ ground (arith, due))
        (ap (λ now. none_due wake now zs) ticks ∙ late) (omega arith) in
    subst (λ s'. Lists s' (rs ++ (d ∷ ds)) zs × (is_due s' ≡ false)) (sym next)
      (
        subst (λ l. Lists (wake_due fuel (wake_first d s)) l zs) (append_assoc rs (d ∷ []) ds)
            rest.0,
        rest.1,
      )

-- Of a sleep list that starts with the threads `ds`, whose time has come, and goes on with none or
-- with a thread whose time has not, wake_due_threads moves exactly `ds` to the end of the ready
-- list, in their order, and clears the wakeup flag.
pub wake_due_threads-Lists :
    (s : Scheduler) (rs ds zs : List ℕ)
    → Lists s rs (ds ++ zs)
    → all_due (λ j. (s.tcbs j).wake_tick) s.ticks ds ≡ true
    → none_due (λ j. (s.tcbs j).wake_tick) s.ticks zs ≡ true
    → Lists (wake_due_threads s) (rs ++ ds) zs × ((wake_due_threads s).wakeup_pending ≡ false)
unfolding wake_due_threads
wake_due_threads-Lists s rs ds zs v due late =
    let (lists, idle) =
      wake_due-Lists max_threads s rs ds zs (λ j. (s.tcbs j).wake_tick) v (λ j. refl) due late
        (omega (arith, v.room, length-both ds zs)) in
    (
      record {
        queued = record {
          chain = lists.queued.chain;
          tail = lists.queued.tail;
          counted = lists.queued.counted;
          distinct = lists.queued.distinct;
        };
        sleeping = record {
          chain = lists.sleeping.chain;
          counted = lists.sleeping.counted;
          distinct = lists.sleeping.distinct;
        };
        disjoint = lists.disjoint;
        room = lists.room;
      },
      idle,
    )
