-- ===== src/Scheduler/Threads/Wakeup.antt =====
-- thread_wakeup takes a thread out of the sleep list.
use nexus_os.Base.{
  ℕ, zero, suc, ◌-◌, ◌<◌, ◌≡◌, ◌≢◌, refl, sym, ap, ◌∙◌, true, none, some, List, [], ◌∷◌, ◌++◌,
  arith, length, subst,
}
use nexus_os.Scheduler.Waiting.{max_threads}
use nexus_os.Scheduler.{
  Tcb, Scheduler, thread_ready, is_sleeping, find_thread_by_id, store, link, ready_append,
}
use nexus_os.Scheduler.Chain.{Chain, Apart, Distinct, Chain-same}
use nexus_os.Scheduler.Due.{Disjoint, Lists, length-both}
use nexus_os.Scheduler.Frame.{Lists-same, ready_append-Lists, ready_append_state}
use nexus_os.Scheduler.Threads.{seek_before, wake_thread_locked, thread_wakeup}

-- The last thread of a list with `x` in front.
abbrev last_of : ℕ → List ℕ → ℕ
last_of x [] = x
last_of x (y ∷ ys) = last_of y ys

not_there : (y t : ℕ) (xs ys : List ℕ) → Apart y (xs ++ (t ∷ ys)) → y ≢ t
unfolding Apart
not_there y t [] ys a = λ e. a.0 (sym e)
not_there y t (x ∷ xs) ys a = not_there y t xs ys a.1

seek_before_finds :
    (fuel : ℕ) (f : ℕ → Tcb) (x t : ℕ) (xs ys : List ℕ)
    → Chain f (f x).next (xs ++ (t ∷ ys))
    → Distinct (xs ++ (t ∷ ys))
    → length xs < fuel
    → seek_before fuel f t x ≡ some (last_of x xs)
unfolding seek_before Chain Distinct
seek_before_finds zero f x t xs ys ch d enough = absurd (omega arith)
seek_before_finds (suc fuel) f x t [] ys ch d enough = ground (arith, ch.0)
seek_before_finds (suc fuel) f x t (y ∷ xs) ys ch d enough = ground (
  arith,
  ch.0,
  not_there y t xs ys d.0,
  seek_before_finds fuel f y t xs ys ch.1 d.1 (omega arith),
)

last_of-Apart : (x y : ℕ) (xs zs : List ℕ) → y ≢ x → Apart x (xs ++ zs) → last_of y xs ≢ x
unfolding Apart
last_of-Apart x y [] zs ne a = ne
last_of-Apart x y (z ∷ xs) zs ne a = last_of-Apart x z xs zs a.0 a.1

-- Passing over `t` behind the last thread in front of it.
unlink :
    (f g : ℕ → Tcb) (x t : ℕ) (xs ys : List ℕ)
    → Chain f (f x).next (xs ++ (t ∷ ys))
    → Distinct (x ∷ xs ++ (t ∷ ys))
    → (g (last_of x xs)).next ≡ (f t).next
    → ((j : ℕ) → j ≢ last_of x xs → (g j).next ≡ (f j).next)
    → Chain g (g x).next (xs ++ ys)
unfolding Chain Distinct Apart
unlink f g x t [] ys ch d at_last h =
    subst (λ n. Chain g n ys) (sym at_last) (Chain-same f g (f t).next ys x ch.1 d.0.1 h)
unlink f g x t (y ∷ xs) ys ch d at_last h =
    let ne = last_of-Apart x y xs (t ∷ ys) d.0.0 d.0.1 in
    (h x (λ e. ne (sym e)) ∙ ch.0, unlink f g y t xs ys ch.1 d.1 at_last h)

Apart-remove : (x t : ℕ) (xs ys : List ℕ) → Apart x (xs ++ (t ∷ ys)) → Apart x (xs ++ ys)
unfolding Apart
Apart-remove x t [] ys a = a.1
Apart-remove x t (y ∷ xs) ys a = (a.0, Apart-remove x t xs ys a.1)

Distinct-remove :
    (t : ℕ) (xs ys : List ℕ) → Distinct (xs ++ (t ∷ ys)) → Distinct (xs ++ ys) × Apart t (xs ++ ys)
unfolding Distinct Apart
Distinct-remove t [] ys d = (d.1, d.0)
Distinct-remove t (x ∷ xs) ys d =
    let (rest, apart) = Distinct-remove t xs ys d.1 in
    ((Apart-remove x t xs ys d.0, rest), (not_there x t xs ys d.0, apart))

Disjoint-remove :
    (t : ℕ) (xs ys rs : List ℕ) → Disjoint (xs ++ (t ∷ ys)) rs → Disjoint (xs ++ ys) rs × Apart t rs
unfolding Disjoint
Disjoint-remove t [] ys rs d = (d.1, d.0)
Disjoint-remove t (x ∷ xs) ys rs d =
    let (rest, apart) = Disjoint-remove t xs ys rs d.1 in ((d.0, rest), apart)

last_of-Disjoint :
    (x : ℕ) (xs ys rs : List ℕ) → Disjoint (x ∷ xs ++ ys) rs → Apart (last_of x xs) rs
unfolding Disjoint
last_of-Disjoint x [] ys rs d = d.0
last_of-Disjoint x (y ∷ xs) ys rs d = last_of-Disjoint y xs ys rs d.1

distinct_head :
    (x : ℕ) (xs : List ℕ) (t : ℕ) (ys : List ℕ)
    → Distinct (x ∷ xs ++ (t ∷ ys))
    → Apart x (xs ++ (t ∷ ys))
unfolding Distinct
distinct_head x xs t ys d = d.0

distinct_tail :
    (x : ℕ) (xs : List ℕ) (t : ℕ) (ys : List ℕ)
    → Distinct (x ∷ xs ++ (t ∷ ys))
    → Distinct (xs ++ (t ∷ ys))
unfolding Distinct
distinct_tail x xs t ys d = d.1

-- The woken thread's cell before it joins the ready list.
abbrev roused : ℕ → Scheduler → Scheduler
roused t s = record s {
  tcbs = store s.tcbs t (record (s.tcbs t) { next = none; wake_tick = 0; state = thread_ready });
  sleeping_count = s.sleeping_count - 1;
}

-- A chain of the other threads is enough for the lists behind the removal.
roused-Lists :
    (s s1 : Scheduler) (t : ℕ) (rs xs ys : List ℕ)
    → Lists s rs (xs ++ (t ∷ ys))
    → Chain s1.tcbs s1.ready_head rs
    → s1.ready_tail ≡ s.ready_tail
    → s1.ready_count ≡ s.ready_count
    → s1.sleeping_count ≡ s.sleeping_count
    → Chain s1.tcbs s1.sleep_head (xs ++ ys)
    → Lists (roused t s1) rs (xs ++ ys)
roused-Lists s s1 t rs xs ys v ready tail count sleeping ch =
    let (distinct, apart) = Distinct-remove t xs ys v.sleeping.distinct in
    let (disjoint, off) = Disjoint-remove t xs ys rs v.disjoint in
    let same : (j : ℕ) → j ≢ t → ((roused t s1).tcbs j).next ≡ (s1.tcbs j).next =
      λ j ne. ground (arith, ne) in
    record {
      queued = record {
        chain = Chain-same s1.tcbs (roused t s1).tcbs s1.ready_head rs t ready off same;
        tail = tail ∙ v.queued.tail;
        counted = count ∙ v.queued.counted;
        distinct = v.queued.distinct;
      };
      sleeping = record {
        chain = Chain-same s1.tcbs (roused t s1).tcbs s1.sleep_head (xs ++ ys) t ch apart same;
        counted =
            omega (arith, sleeping, v.sleeping.counted, length-both xs (t ∷ ys), length-both xs ys);
        distinct = distinct;
      };
      disjoint = disjoint;
      room = omega (arith, v.room, length-both xs (t ∷ ys), length-both xs ys);
    }

wake_thread_locked-Lists :
    (s : Scheduler) (t : ℕ) (rs xs ys : List ℕ)
    → Lists s rs (xs ++ (t ∷ ys))
    → is_sleeping (s.tcbs t).state ≡ true
    → Lists (wake_thread_locked t s) (rs ++ (t ∷ [])) (xs ++ ys)
      × (((wake_thread_locked t s).tcbs t).state ≡ thread_ready)
unfolding wake_thread_locked Chain
wake_thread_locked-Lists s t rs [] ys v asleep =
    let s1 = record s { sleep_head = (s.tcbs t).next } in
    let woken : wake_thread_locked t s ≡ ready_append t (roused t s1) =
      ground (arith, asleep, v.sleeping.chain.0) in
    let apart = Distinct-remove t [] ys v.sleeping.distinct in
    let off = Disjoint-remove t [] ys rs v.disjoint in
    let v1 = roused-Lists s s1 t rs [] ys v v.queued.chain refl refl refl v.sleeping.chain.1 in
    subst (λ s'. Lists s' (rs ++ (t ∷ [])) ys × ((s'.tcbs t).state ≡ thread_ready)) (sym woken)
      (
        ready_append-Lists (roused t s1) t rs ys v1 off.1 apart.1 (omega (arith, v.room)),
        ready_append_state (roused t s1) t t ∙ ground arith,
      )
wake_thread_locked-Lists s t rs (x ∷ xs) ys v asleep =
    let c = last_of x xs in
    let s1 = record s { tcbs = link s.tcbs c (s.tcbs t).next } in
    let found =
      seek_before_finds max_threads s.tcbs x t xs ys v.sleeping.chain.1
        (distinct_tail x xs t ys v.sleeping.distinct)
        (omega (arith, v.room, length-both xs (t ∷ ys))) in
    let other = not_there x t xs ys (distinct_head x xs t ys v.sleeping.distinct) in
    let woken : wake_thread_locked t s ≡ ready_append t (roused t s1) =
      ground (arith, asleep, v.sleeping.chain.0, other, found) in
    let apart = Distinct-remove t (x ∷ xs) ys v.sleeping.distinct in
    let off = Disjoint-remove t (x ∷ xs) ys rs v.disjoint in
    let same : (j : ℕ) → j ≢ c → (s1.tcbs j).next ≡ (s.tcbs j).next = λ j ne. ground (arith, ne) in
    let ready =
      Chain-same s.tcbs s1.tcbs s.ready_head rs c v.queued.chain
        (last_of-Disjoint x xs (t ∷ ys) rs v.disjoint) same in
    let ch =
      unlink s.tcbs s1.tcbs x t xs ys v.sleeping.chain.1 v.sleeping.distinct (ground arith) same in
    let v1 = roused-Lists s s1 t rs (x ∷ xs) ys v ready refl refl refl (v.sleeping.chain.0, ch) in
    subst (λ s'. Lists s' (rs ++ (t ∷ [])) (x ∷ xs ++ ys) × ((s'.tcbs t).state ≡ thread_ready))
      (sym woken)
      (
        ready_append-Lists (roused t s1) t rs (x ∷ xs ++ ys) v1 off.1 apart.1
            (omega (arith, v.room, length-both xs (t ∷ ys), length-both xs ys)),
        ready_append_state (roused t s1) t t ∙ ground arith,
      )

-- thread_wakeup of the id of a sleeping thread, which the started scheduler holds anywhere in its
-- sleep list, reports success, takes the thread out of the list, puts it, ready, at the end of the
-- ready list, and asks for a reschedule.
pub thread_wakeup-Lists :
    (s : Scheduler) (id t : ℕ) (rs xs ys : List ℕ)
    → Lists s rs (xs ++ (t ∷ ys))
    → s.ready ≡ true
    → find_thread_by_id s id ≡ some t
    → is_sleeping (s.tcbs t).state ≡ true
    → ((thread_wakeup id s).0 ≡ true)
      × Lists (thread_wakeup id s).1 (rs ++ (t ∷ [])) (xs ++ ys)
      × (((thread_wakeup id s).1.tcbs t).state ≡ thread_ready)
      × ((thread_wakeup id s).1.reschedule_pending ≡ true)
unfolding thread_wakeup
thread_wakeup-Lists s id t rs xs ys v on found asleep =
    let (v1, awake) = wake_thread_locked-Lists s t rs xs ys v asleep in
    let s1 = wake_thread_locked t s in
    let s2 = record s1 { wakeup_pending = true; reschedule_pending = true } in
    let done : thread_wakeup id s ≡ (true, s2) = ground (arith, on, found, asleep) in
    (
      ap (λ r. r.0) done,
      subst (λ s'. Lists s' (rs ++ (t ∷ [])) (xs ++ ys)) (sym (ap (λ r. r.1) done))
          (Lists-same s1 s2 (rs ++ (t ∷ [])) (xs ++ ys) v1 (λ j. refl)
            (refl, refl, refl, refl, refl)),
      ap (λ r. (r.1.tcbs t).state) done ∙ awake,
      ap (λ r. r.1.reschedule_pending) done,
    )
