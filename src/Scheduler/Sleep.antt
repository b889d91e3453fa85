-- ===== src/Scheduler/Sleep.antt =====
-- The sleep list is sorted by the ticks at which its threads wake.
use nexus_os.Base.{
  ℕ, zero, suc, ◌+◌, ◌%◌, ◌^◌, ◌≤◌, ◌<◌, ◌≡◌, refl, sym, ap, ◌∙◌, ◌≢◌, Option, none, some, List, [],
  ◌∷◌, inl, inr, arith, ltb, leb, if◌then◌else◌, length, subst, Bool-cases,
}
use nexus_os.Scheduler.Waiting.{max_threads}
use nexus_os.Scheduler.{Tcb, Scheduler, link, seek, sleep_insert}
use nexus_os.Scheduler.Chain.{Chain, Apart, Distinct, Chain-same, Chain-frame, link_next}

-- A thread goes behind those that wake no later.
pub insert : (ℕ → Tcb) → ℕ → List ℕ → List ℕ
insert f t [] = t ∷ []
insert f t (x ∷ xs) = if ltb (f t).wake_tick (f x).wake_tick then t ∷ x ∷ xs else x ∷ insert f t xs

-- The list of sleeping threads.
pub record Sleeping (s : Scheduler) (xs : List ℕ) : Type 0 where
  pub chain : Chain s.tcbs s.sleep_head xs
  pub counted : s.sleeping_count ≡ length xs
  pub distinct : Distinct xs

seek-Apart :
    (f : ℕ → Tcb) (fuel wake c x : ℕ) (xs : List ℕ)
    → Chain f (f x).next xs
    → Apart c (x ∷ xs)
    → c ≢ seek fuel f wake x
unfolding Chain Apart seek
seek-Apart f zero wake c x xs ch a = λ e. a.0 (sym e)
seek-Apart f (suc fuel) wake c x [] ch a = ground (arith, ch, a.0)
seek-Apart f (suc fuel) wake c x (y ∷ ys) ch a =
    ground (arith, ch.0, a.0, seek-Apart f fuel wake c y ys ch.1 a.1)

-- Linking the thread behind the cursor that the walk from `x` reaches inserts it behind `x`.
module _ (f g : ℕ → Tcb) (t : ℕ) where
  insert_behind :
      (fuel x c : ℕ) (xs : List ℕ)
      → Chain f (f x).next xs
      → Distinct (x ∷ xs)
      → Apart t (x ∷ xs)
      → length xs ≤ fuel
      → c ≡ seek fuel f (f t).wake_tick x
      → (g c).next ≡ some t
      → (g t).next ≡ (f c).next
      → ((j : ℕ) → j ≢ c → j ≢ t → (g j).next ≡ (f j).next)
      → Chain g (g x).next (insert f t xs)
  unfolding Chain Apart Distinct seek insert
  insert_behind zero x c (y ∷ ys) ch d a enough e at_c at_t h = absurd (omega arith)
  insert_behind zero x c [] ch d a enough e at_c at_t h =
      (subst (λ i. (g i).next ≡ some t) e at_c, at_t ∙ ap (λ i. (f i).next) e ∙ ch)
  insert_behind (suc fuel) x c [] ch d a enough e at_c at_t h =
      let cx : c ≡ x = ground (arith, e, ch) in
      (subst (λ i. (g i).next ≡ some t) cx at_c, at_t ∙ ap (λ i. (f i).next) cx ∙ ch)
  insert_behind (suc fuel) x c (y ∷ ys) ch d a enough e at_c at_t h =
      elim (Bool-cases (leb (f y).wake_tick (f t).wake_tick)) [
        | inl later ↦
            let further : c ≡ seek fuel f (f t).wake_tick y = ground (arith, e, ch.0, later) in
            let nc : x ≢ c =
              λ same. seek-Apart f fuel (f t).wake_tick x y ys ch.1 d.0 (same ∙ further) in
            subst (Chain g (g x).next) {x = y ∷ insert f t ys} (ground (arith, later)) (
              h x nc a.0 ∙ ch.0,
              insert_behind fuel y c ys ch.1 d.1 a.1 (omega arith) further at_c at_t h,
            )
        | inr here ↦
            let cx : c ≡ x = ground (arith, e, ch.0, here) in
            let rest =
              Chain-frame f g (f x).next (y ∷ ys) x t ch d.0 a.1
                (λ j nj. h j (λ jc. nj (jc ∙ cx))) in
            subst (Chain g (g x).next) {x = t ∷ y ∷ ys} (ground (arith, here)) (
              subst (λ i. (g i).next ≡ some t) cx at_c,
              subst (λ n. Chain g n (y ∷ ys)) (sym (at_t ∙ ap (λ i. (f i).next) cx)) rest,
            )
      ]

Apart-insert : (f : ℕ → Tcb) (x t : ℕ) (xs : List ℕ) → Apart x xs → t ≢ x → Apart x (insert f t xs)
unfolding Apart insert
Apart-insert f x t [] a ne = (ne, tt)
Apart-insert f x t (y ∷ ys) (h, a) ne = elim (Bool-cases (ltb (f t).wake_tick (f y).wake_tick)) [
  | inl before ↦ rw before (ne, (h, a))
  | inr after ↦ rw after (h, Apart-insert f x t ys a ne)
]

Distinct-insert :
    (f : ℕ → Tcb) (t : ℕ) (xs : List ℕ) → Distinct xs → Apart t xs → Distinct (insert f t xs)
unfolding Distinct Apart insert
Distinct-insert f t [] d a = (tt, tt)
Distinct-insert f t (x ∷ xs) (ax, d) (ne, a) =
    elim (Bool-cases (ltb (f t).wake_tick (f x).wake_tick)) [
      | inl before ↦ rw before ((ne, a), (ax, d))
      | inr after ↦
          rw after (Apart-insert f x t xs ax (λ e. ne (sym e)), Distinct-insert f t xs d a)
    ]

length-insert : (f : ℕ → Tcb) (t : ℕ) (xs : List ℕ) → length (insert f t xs) ≡ length xs + 1
unfolding insert
length-insert f t [] = refl
length-insert f t (x ∷ xs) = ground (arith, length-insert f t xs)

-- Where two tables have the same wake ticks, they sort alike.
insert_same :
    (f g : ℕ → Tcb) (t : ℕ) (xs : List ℕ)
    → ((j : ℕ) → (g j).wake_tick ≡ (f j).wake_tick)
    → insert g t xs ≡ insert f t xs
unfolding insert
insert_same f g t [] h = refl
insert_same f g t (x ∷ xs) h = ground (arith, h t, h x, insert_same f g t xs h)

pub link_wake : (f : ℕ → Tcb) (i j : ℕ) (p : Option ℕ) → (link f i p j).wake_tick ≡ (f j).wake_tick
link_wake f i j p = ground (arith, ap (λ k. (f k).wake_tick) {x = i} {y = j})

pub link_same :
    (f : ℕ → Tcb) (p q : Option ℕ) (t : ℕ) (xs : List ℕ)
    → Chain f p xs
    → Apart t xs
    → Chain (link f t q) p xs
link_same f p q t xs ch a =
    Chain-same f (link f t q) p xs t ch a (λ j ne. ground (arith, link_next f t j q))

-- In front of the list.
insert_front :
    (f : ℕ → Tcb) (t x : ℕ) (xs : List ℕ)
    → Chain f (some x) (x ∷ xs)
    → Apart t (x ∷ xs)
    → Chain (link f t (some x)) (some t) (t ∷ x ∷ xs)
unfolding Chain
insert_front f t x xs ch a = (
  refl,
  subst (λ n. Chain (link f t (some x)) n (x ∷ xs)) (ground (arith, link_next f t t (some x)))
      (link_same f (some x) (some x) t (x ∷ xs) ch a),
)

-- Behind the cursor.
insert_at_cursor :
    (f : ℕ → Tcb) (t x : ℕ) (xs : List ℕ)
    → Chain f (f x).next xs
    → Distinct (x ∷ xs)
    → Apart t (x ∷ xs)
    → length xs ≤ max_threads
    → let c = seek max_threads f (f t).wake_tick x in
      Chain (link (link f t (f c).next) c (some t)) (some x) (x ∷ insert f t xs)
unfolding Chain
insert_at_cursor f t x xs ch d a room =
    let c = seek max_threads f (f t).wake_tick x in
    let f1 = link f t (f c).next in
    let nc = seek-Apart f max_threads (f t).wake_tick t x xs ch a in
    (
      refl,
      insert_behind f (link f1 c (some t)) t max_threads x c xs ch d a room refl
          (link_next f1 c c (some t) ∙ ground arith)
          (ground (arith, link_next f1 c t (some t), link_next f t t (f c).next, nc))
          (λ j n1 n2. ground (arith, link_next f1 c j (some t), link_next f t j (f c).next)),
    )

sleep_insert_linked :
    (s : Scheduler) (t : ℕ) (xs : List ℕ)
    → Sleeping s xs
    → Apart t xs
    → length xs < max_threads
    → Chain (sleep_insert t s).tcbs (sleep_insert t s).sleep_head (insert (link s.tcbs t none) t xs)
unfolding sleep_insert Chain insert
sleep_insert_linked s t [] z a room =
    rw (z.chain, sleep_insert) (refl, ground (arith, link_next (link s.tcbs t none) t t none))
sleep_insert_linked s t (x ∷ xs) z a room =
    let f = link s.tcbs t none in
    let ch = link_same s.tcbs (some x) none t (x ∷ xs) (refl, z.chain.1) a in
    elim (Bool-cases (ltb (f t).wake_tick (f x).wake_tick)) [
      | inl before ↦ rw (z.chain.0, before, sleep_insert) (insert_front f t x xs ch a)
      | inr after ↦
          let linked = insert_at_cursor f t x xs ch.1 z.distinct a (omega arith) in
          rw (z.chain.0, after, sleep_insert) (z.chain.0, linked.1)
    ]

sleep_insert_counts :
    (s : Scheduler) (t : ℕ) → (sleep_insert t s).sleeping_count ≡ (s.sleeping_count + 1) % 2 ^ 32
unfolding sleep_insert
sleep_insert_counts s t = ground arith

-- A thread that is not in the sleep list, of fewer than 8 threads, is inserted there by its wake
-- tick, behind those that wake no later.
pub sleep_insert-Sleeping :
    (s : Scheduler) (t : ℕ) (xs : List ℕ)
    → Sleeping s xs
    → Apart t xs
    → length xs < max_threads
    → Sleeping (sleep_insert t s) (insert s.tcbs t xs)
sleep_insert-Sleeping s t xs z a room = record {
  chain =
      subst (Chain (sleep_insert t s).tcbs (sleep_insert t s).sleep_head)
        (insert_same s.tcbs (link s.tcbs t none) t xs (λ j. link_wake s.tcbs t j none))
        (sleep_insert_linked s t xs z a room);
  counted = omega (arith, sleep_insert_counts s t, z.counted, length-insert s.tcbs t xs, room);
  distinct = Distinct-insert s.tcbs t xs z.distinct a;
}
