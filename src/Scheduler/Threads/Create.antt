-- ===== src/Scheduler/Threads/Create.antt =====
-- thread_create puts a new thread at the end of the ready list.
use nexus_os.Base.{
  ℕ, zero, suc, ◌+◌, ◌-◌, ◌%◌, ◌^◌, ◌≤◌, ◌<◌, ◌≡◌, ◌≢◌, ◌⊎◌, sym, ap, ◌∙◌, true, false, none, some,
  List, [], ◌∷◌, ◌++◌, inl, inr, arith, ◌==◌, length, subst, Bool-cases, Option-cases,
}
use nexus_os.Scheduler.Waiting.{max_threads}
use nexus_os.Scheduler.{Tcb, Scheduler, thread_ready, store}
use nexus_os.Scheduler.Chain.{Apart, Chain-same}
use nexus_os.Scheduler.Due.{Lists}
use nexus_os.Scheduler.Frame.{ready_append-Lists, ready_append_state}
use nexus_os.Scheduler.Services.{Services}
use nexus_os.Scheduler.Threads.{free_from, new_tcb, start_thread, stack_bytes, thread_create}

-- All the threads exist.
unfoldable pub AllLive : (ℕ → Tcb) → List ℕ → Type 0
AllLive f [] = Unit
AllLive f (x ∷ xs) = ((f x).live ≡ true) × AllLive f xs

live_Apart : (f : ℕ → Tcb) (t : ℕ) (xs : List ℕ) → AllLive f xs → (f t).live ≡ false → Apart t xs
unfolding AllLive Apart
live_Apart f t [] l e = tt
live_Apart f t (x ∷ xs) l e =
    (ground (arith, l.0, e, ap (λ i. (f i).live) {x = x} {y = t}), live_Apart f t xs l.1 e)

free_from-some :
    (f : ℕ → Tcb) (rounds i slot : ℕ)
    → free_from f rounds i ≡ some slot
    → ((f slot).live ≡ false) × (i ≤ slot) × (slot < i + rounds)
unfolding free_from
free_from-some f zero i slot e = cc
free_from-some f (suc rounds) i slot e = elim (Bool-cases (f i).live) [
  | inl taken ↦
      let (free, low, high) = free_from-some f rounds (i + 1) slot (ground (arith, e, taken)) in
      (free, omega arith, omega arith)
  | inr free ↦
      let same : i ≡ slot = ground (arith, e, free) in
      (subst (λ j. (f j).live ≡ false) same free, omega arith, omega arith)
]

free_from-none :
    (f : ℕ → Tcb) (rounds i : ℕ)
    → free_from f rounds i ≡ none
    → (j : ℕ) → i ≤ j
    → j < i + rounds
    → (f j).live ≡ true
unfolding free_from
free_from-none f zero i e j low high = absurd (omega arith)
free_from-none f (suc rounds) i e j low high = elim (Bool-cases (f i).live) [
  | inr free ↦ absurd (ground (arith, e, free))
  | inl taken ↦ elim (Bool-cases (i == j)) [
    | inl same ↦ ground (arith, taken, same, ap (λ q. (f q).live) {x = i} {y = j})
    | inr other ↦
        free_from-none f rounds (i + 1) (ground (arith, e, taken)) j (ground (arith, other, low))
          (omega arith)
  ]
]

store-Lists :
    (s : Scheduler) (t : ℕ) (c : Tcb) (rs zs : List ℕ) (id : ℕ)
    → Lists s rs zs
    → Apart t rs
    → Apart t zs
    → Lists (record s { tcbs = store s.tcbs t c; next_tid = id }) rs zs
store-Lists s t c rs zs id v ar az =
    let same : (j : ℕ) → j ≢ t → (store s.tcbs t c j).next ≡ (s.tcbs j).next =
      λ j ne. ground (arith, ne) in
    record {
      queued = record {
        chain = Chain-same s.tcbs (store s.tcbs t c) s.ready_head rs t v.queued.chain ar same;
        tail = v.queued.tail;
        counted = v.queued.counted;
        distinct = v.queued.distinct;
      };
      sleeping = record {
        chain = Chain-same s.tcbs (store s.tcbs t c) s.sleep_head zs t v.sleeping.chain az same;
        counted = v.sleeping.counted;
        distinct = v.sleeping.distinct;
      };
      disjoint = v.disjoint;
      room = v.room;
    }

start_thread-Lists :
    (slot stack entry arg : ℕ) (s : Scheduler) (rs zs : List ℕ)
    → Lists s rs zs
    → Apart slot rs
    → Apart slot zs
    → length rs + length zs < max_threads
    → Lists (start_thread slot stack entry arg s) (rs ++ (slot ∷ [])) zs
      × (((start_thread slot stack entry arg s).tcbs slot).state ≡ thread_ready)
unfolding start_thread
start_thread-Lists slot stack entry arg s rs zs v ar az room =
    let id = (s.next_tid + 1) % 2 ^ 64 in
    let c = new_tcb s.next_tid stack entry arg in
    let s1 = record s { tcbs = store s.tcbs slot c; next_tid = id } in
    let v1 = ready_append-Lists s1 slot rs zs (store-Lists s slot c rs zs id v ar az) ar az room in
    (
      record {
        queued = record {
          chain = v1.queued.chain;
          tail = v1.queued.tail;
          counted = v1.queued.counted;
          distinct = v1.queued.distinct;
        };
        sleeping = record {
          chain = v1.sleeping.chain;
          counted = v1.sleeping.counted;
          distinct = v1.sleeping.distinct;
        };
        disjoint = v1.disjoint;
        room = v1.room;
      },
      ready_append_state s1 slot slot ∙ ground arith,
    )

module _ {W : Type 0} (k : Services W) where
  -- thread_create of an entry point that is not null, on a started scheduler and a ready heap, where
  -- the threads of the ready and the sleep list, fewer than 8, exist: either it gives the next id,
  -- having put a thread of one of the slots 1 to 7 that was free, now ready, at the end of the ready
  -- list; or it gives 0 and leaves the scheduler as it was, because none of these slots is free or
  -- because kmalloc gives no stack.
  pub thread_create-Lists :
      (entry arg : ℕ) (s : Scheduler) (w : W) (rs zs : List ℕ)
      → Lists s rs zs
      → AllLive s.tcbs rs
      → AllLive s.tcbs zs
      → length rs + length zs < max_threads
      → s.ready ≡ true
      → entry ≢ 0
      → k.heap_is_ready w ≡ true
      → ((slot : ℕ) × ((thread_create k entry arg s w).0 ≡ s.next_tid)
          × (1 ≤ slot)
          × (slot < max_threads)
          × ((s.tcbs slot).live ≡ false)
          × Lists (thread_create k entry arg s w).1 (rs ++ (slot ∷ [])) zs
          × (((thread_create k entry arg s w).1.tcbs slot).state ≡ thread_ready))
        ⊎ (((thread_create k entry arg s w).0 ≡ 0)
            × ((thread_create k entry arg s w).1 ≡ s)
            × (((j : ℕ) → 1 ≤ j → j < max_threads → (s.tcbs j).live ≡ true)
                ⊎ ((k.kmalloc stack_bytes w).0 ≡ 0)))
  unfolding thread_create
  thread_create-Lists entry arg s w rs zs v lr lz room on real heap =
      elim (Option-cases (free_from s.tcbs (max_threads - 1) 1)) [
        | inl full ↦ inr (
          ground (arith, on, real, heap, full),
          ground (arith, on, real, heap, full),
          inl (λ j low high. free_from-none s.tcbs 7 1 full j low (omega arith)),
        )
        | inr (slot, found) ↦
            let (free, low, high) = free_from-some s.tcbs 7 1 slot found in
            let (v1, waits) =
              start_thread-Lists slot (k.kmalloc stack_bytes w).0 entry arg s rs zs v
                (live_Apart s.tcbs slot rs lr free) (live_Apart s.tcbs slot zs lz free) room in
            elim (Bool-cases ((k.kmalloc stack_bytes w).0 == 0)) [
              | inl null ↦ inr (
                ground (arith, on, real, heap, found, null),
                ground (arith, on, real, heap, found, null),
                inr (ground (arith, null)),
              )
              | inr stack ↦
                  let made : thread_create k entry arg s w ≡ (
                    s.next_tid,
                    start_thread slot (k.kmalloc stack_bytes w).0 entry arg s,
                    (k.kmalloc stack_bytes w).1,
                  ) =
                    ground (arith, on, real, heap, found, stack) in
                  inl (
                    slot,
                    ap (λ r. r.0) made,
                    low,
                    omega arith,
                    free,
                    subst (λ r. Lists r (rs ++ (slot ∷ [])) zs) (sym (ap (λ r. r.1) made)) v1,
                    ap (λ r. (r.1.tcbs slot).state) made ∙ waits,
                  )
            ]
      ]
