-- ===== src/Scheduler/Waiting/Fifo.antt =====
-- A wait queue is a line of distinct thread ids.
use nexus_os.Base.{
  ℕ, zero, suc, ◌+◌, ◌-◌, ◌%◌, ◌^◌, ◌≤◌, ◌<◌, ◌≡◌, refl, sym, ap, ◌∙◌, ◌≢◌, Bool, true, false, ◌||◌,
  ◌&&◌, not, List, [], ◌∷◌, ◌++◌, inl, inr, arith, leb, ◌==◌, if◌then◌else◌, get_or, set, length,
  length-set, Bool-cases,
}
use nexus_os.Base.Ring.{around, length-around, around_start, around-set_past, around-set}
use nexus_os.Scheduler.Waiting.{
  WaitQueue, max_threads, scheduler_wait_queue_init, contains_from, scheduler_wait_queue_contains,
  scheduler_wait_queue_push_locked, scheduler_wait_queue_pop_locked,
}

-- The ids that wait, the first in line first.
abbrev pub line : WaitQueue → List ℕ
line q = around 0 max_threads q.ids q.head q.count

unfoldable pub elem : ℕ → List ℕ → Bool
elem x [] = false
elem x (y ∷ ys) = y == x || elem x ys

-- Distinct ids, none of them 0.
unfoldable pub is_line : List ℕ → Bool
is_line [] = true
is_line (x ∷ xs) = not (x == 0) && not (elem x xs) && is_line xs

pub record IsValid (q : WaitQueue) : Type 0 where
  pub slots : length q.ids ≡ max_threads
  pub head_in : q.head < max_threads
  pub count_in : q.count ≤ max_threads
  pub ordered : is_line (line q) ≡ true

-- What the queue promises, on lines.
abbrev pub join : ℕ → List ℕ → List ℕ
join id xs = if id == 0 || leb max_threads (length xs) || elem id xs then xs else xs ++ (id ∷ [])

abbrev pub first : List ℕ → ℕ
first [] = 0
first (x ∷ xs) = x

abbrev pub others : List ℕ → List ℕ
others [] = []
others (x ∷ xs) = xs

contains_from_lem :
    (q : WaitQueue) (id rounds i : ℕ)
    → contains_from q id rounds i ≡ elem id (around 0 max_threads q.ids (q.head + i) rounds)
unfolding contains_from elem
contains_from_lem q id zero i = refl
contains_from_lem q id (suc rounds) i =
    ap (λ b. (get_or q.ids ((q.head + i) % max_threads) 0 == id) || b)
      (contains_from_lem q id rounds (i + 1)
        ∙ ap (λ k. elem id (around 0 max_threads q.ids k rounds)) (omega arith))

-- The search finds exactly the ids that wait.
pub scheduler_wait_queue_contains_lem :
    (q : WaitQueue) (id : ℕ)
    → scheduler_wait_queue_contains q id ≡ (if id == 0 then false else elem id (line q))
unfolding scheduler_wait_queue_contains
scheduler_wait_queue_contains_lem q id = ground (
  arith,
  contains_from_lem q id q.count 0,
  ap (λ k. elem id (around 0 max_threads q.ids k q.count)) {x = q.head + 0} {y = q.head},
)

pub elem-append : (id x : ℕ) (xs : List ℕ) → elem x (xs ++ (id ∷ [])) ≡ (id == x || elem x xs)
unfolding elem
elem-append id x [] = refl
elem-append id x (y ∷ ys) = ground (arith, elem-append id x ys)

is_line-append :
    (id : ℕ) (xs : List ℕ)
    → id ≢ 0
    → elem id xs ≡ false
    → is_line xs ≡ true
    → is_line (xs ++ (id ∷ [])) ≡ true
unfolding is_line elem
is_line-append id [] some_id apart h = ground arith
is_line-append id (x ∷ xs) some_id apart h =
    ground (arith, is_line-append id xs some_id, elem-append id x xs)

-- The state after an id has been written behind the line.
abbrev joined : WaitQueue → ℕ → WaitQueue
joined q id = record q {
  ids = set q.ids ((q.head + q.count) % max_threads) id;
  count = (q.count + 1) % 2 ^ 32;
}

line-joined :
    (q : WaitQueue) (id : ℕ)
    → IsValid q
    → q.count < max_threads
    → line (joined q id) ≡ line q ++ (id ∷ [])
line-joined q id v room =
    ap (around 0 max_threads (joined q id).ids q.head) {y = suc q.count} (omega arith)
    ∙ around-set 0 max_threads q.ids q.head q.count id (omega (arith, v.slots)) room

module _ (q : WaitQueue) (id : ℕ) (v : IsValid q) where
  joined-IsValid : id ≢ 0 → q.count < max_threads → elem id (line q) ≡ false → IsValid (joined q id)
  joined-IsValid some_id room apart = record {
    slots = length-set q.ids ((q.head + q.count) % max_threads) id ∙ v.slots;
    head_in = v.head_in;
    count_in = omega arith;
    ordered =
        ap is_line (line-joined q id v room) ∙ is_line-append id (line q) some_id apart v.ordered;
  }

  -- On a valid queue a push joins the line where the id is not 0 and not there yet and there is
  -- room; else it changes nothing. The queue stays valid.
  pub push-line :
      (line (scheduler_wait_queue_push_locked q id) ≡ join id (line q))
      × IsValid (scheduler_wait_queue_push_locked q id)
  unfolding scheduler_wait_queue_push_locked
  push-line =
      let found = scheduler_wait_queue_contains_lem q id in
      let size = length-around 0 max_threads q.ids q.head q.count in
      elim (Bool-cases (id == 0 || leb max_threads q.count || scheduler_wait_queue_contains q id)) [
        | inl stays ↦
            rw (stays, scheduler_wait_queue_push_locked) (ground (arith, stays, found, size), v)
        | inr joins ↦
            let room : q.count < max_threads = ground arith in
            let some_id : id ≢ 0 = ground arith in
            let apart : elem id (line q) ≡ false = ground (arith, found) in
            rw (joins, scheduler_wait_queue_push_locked)
              (
                line-joined q id v room ∙ ground (arith, apart, size, room, some_id),
                joined-IsValid some_id room apart,
              )
      ]

-- The state after the first slot has been cleared.
abbrev served : WaitQueue → WaitQueue
served q = record q {
  ids = set q.ids q.head 0;
  head = (q.head + 1) % max_threads;
  count = q.count - 1;
}

line-served :
    (q : WaitQueue) (c : ℕ)
    → IsValid q
    → q.count ≡ suc c
    → line q ≡ get_or q.ids q.head 0 ∷ line (served q)
line-served q c v e =
    ap (around 0 max_threads q.ids q.head) e
    ∙ ap (λ i. get_or q.ids i 0 ∷ around 0 max_threads q.ids (suc q.head) c)
        (omega (arith, v.head_in))
    ∙ ap (◌∷◌ (get_or q.ids q.head 0)) (
        sym (
          around-set_past 0 max_threads q.ids (suc q.head) c 7 0 (omega (arith, v.count_in))
            (omega arith))
        ∙ ap (λ i. around 0 max_threads (set q.ids i 0) (suc q.head) c) (omega (arith, v.head_in))
        ∙ around_start 0 max_threads (set q.ids q.head 0) (suc q.head) ((q.head + 1) % max_threads)
            c (omega arith)
        ∙ ap (around 0 max_threads (set q.ids q.head 0) ((q.head + 1) % max_threads))
            (omega (arith, e)))

is_line-others : (xs : List ℕ) → is_line xs ≡ true → is_line (others xs) ≡ true
unfolding is_line
is_line-others [] h = h
is_line-others (x ∷ xs) h = ground arith

-- A pop from a valid queue gives the first in line, or 0 if nobody waits; the others keep their
-- order and the queue stays valid.
pub pop-line :
    (q : WaitQueue)
    → IsValid q
    → ((scheduler_wait_queue_pop_locked q).0 ≡ first (line q))
      × (line (scheduler_wait_queue_pop_locked q).1 ≡ others (line q))
      × IsValid (scheduler_wait_queue_pop_locked q).1
unfolding scheduler_wait_queue_pop_locked
pop-line q v = elim (Bool-cases (q.count == 0)) [
  | inl nobody ↦
      let empty : line q ≡ [] = ap (around 0 max_threads q.ids q.head) {y = 0} (ground arith) in
      rw (nobody, scheduler_wait_queue_pop_locked)
        (sym (ap first empty), empty ∙ sym (ap others empty), v)
  | inr somebody ↦
      let split = line-served q (q.count - 1) v (ground arith) in
      rw (somebody, scheduler_wait_queue_pop_locked)
        (
          sym (ap first split),
          sym (ap others split),
          record {
            slots = length-set q.ids q.head 0 ∙ v.slots;
            head_in = omega arith;
            count_in = omega (arith, v.count_in);
            ordered = sym (ap is_line (ap others split)) ∙ is_line-others (line q) v.ordered;
          },
        )
]

-- The empty queue.
pub scheduler_wait_queue_init_lem :
    (line scheduler_wait_queue_init ≡ []) × IsValid scheduler_wait_queue_init
unfolding is_line
scheduler_wait_queue_init_lem =
    (refl, record { slots = refl; head_in = omega arith; count_in = omega arith; ordered = refl })
