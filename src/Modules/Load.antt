-- ===== src/Modules/Load.antt =====
-- module_load_index ends, calls every init function at most once and after those of the
-- dependencies, and unwinds its stack.
use nexus_os.Base.{
  if◌then◌else◌, ℕ, zero, suc, ◌+◌, ◌≤◌, ◌<◌, ◌≡◌, refl, sym, ap, ◌∙◌, inl, inr, Bool, true, false,
  ◌||◌, Option, none, some, List, [], ◌∷◌, ltb, ◌==◌, length, arith, Bool-cases, Option-cases,
  subst,
}
use nexus_os.Base.Count.{count_free_take, count_free_same}
use nexus_os.Modules.{
  Module, Manager, ModuleState, declared, loading, loaded, failed, is_declared, is_loaded, put,
  index_from, module_index, usable_index, load_dependencies, load_declared, fail, finish_load,
  module_load_index,
}
use nexus_os.Modules.Soundness.{
  has, Outcomes, Outcomes-same, is_failed, any_bad, any_bad-weaken, blocks, NoneFails, AllDeps,
  dependencies, Orderly, is_up, Sound, Advances, Advances-refl, Advances-trans, unmarked, Works,
  Returns, AllDeps-weaken,
}

index_from-lt :
    (ms : List Module) (i k : ℕ) (name : List ℕ) → index_from ms i name ≡ some k → k < i + length ms
unfolding index_from
index_from-lt [] i k name e = cc
index_from-lt (m ∷ ms) i k name e = ground (arith, e, index_from-lt ms (i + 1) k name)

module _ (ms : List Module) (init : ℕ → List ℕ → ℕ) where
  usable_some :
      (i : ℕ) (d : Option (List ℕ)) (m : Manager) (k : ℕ)
      → usable_index ms i d m ≡ some k
      → (name : List ℕ) × (d ≡ some name) × (module_index ms name ≡ some k) × (m.stacked k ≡ false)
  usable_some i none m k e = cc
  usable_some i (some name) m k e = elim (Option-cases (module_index ms name)) [
    | inl absent ↦ absurd (ground (arith, e, absent))
    | inr (j, found) ↦ elim (Bool-cases (j == i || m.stacked j)) [
      | inl bad ↦ absurd (ground (arith, e, found, bad))
      | inr good ↦
          let same : j ≡ k = ground (arith, e, found, good) in
          (name, refl, found ∙ ap some same, ap m.stacked (sym same) ∙ ground (arith, good))
    ]
  ]

  unusable :
      (i : ℕ) (d : Option (List ℕ)) (ds : List (Option (List ℕ))) (m : Manager)
      → usable_index ms i d m ≡ none
      → any_bad ms (λ k. k == i || blocks m k) (d ∷ ds) ≡ true
  unfolding any_bad
  unusable i none ds m e = refl
  unusable i (some name) ds m e = elim (Option-cases (module_index ms name)) [
    | inl absent ↦ ground (arith, absent)
    | inr (k, found) ↦ ground (arith, e, found)
  ]

  load_dependencies_lem :
      (fuel : ℕ) (load : ℕ → Manager → Option (Bool × Manager))
      → Works ms init fuel load
      → (i : ℕ) (ds : List (Option (List ℕ))) (m : Manager) → Sound ms init m
      → unmarked ms init m ≤ fuel
      → (ok : Bool) × (m' : Manager) × (load_dependencies ms load i ds m ≡ some (ok, m'))
        × Advances ms init m m'
        × (ok ≡ true → AllDeps ms (is_up ms m') ds × NoneFails ms init m m')
        × (ok ≡ false → any_bad ms (λ k. k == i || blocks m' k) ds ≡ true)
  unfolding load_dependencies AllDeps Works Returns any_bad
  load_dependencies_lem fuel load w i [] m v enough =
      (true, m, refl, Advances-refl ms init m v, λ e. (tt, λ j h. h), λ e. cc)
  load_dependencies_lem fuel load w i (d ∷ ds) m v enough =
      elim (Option-cases (usable_index ms i d m)) [
        | inl bad ↦ (
          false,
          m,
          rw (bad, load_dependencies),
          Advances-refl ms init m v,
          λ e. cc,
          λ e. unusable i d ds m bad,
        )
        | inr (k, good) ↦
            let (name, de, found, off) = usable_some i d m k good in
            let in_range : k < length ms = omega (arith, index_from-lt ms 0 k name found) in
            let (ok, m1, e, a, up, down, settled) = w k m v in_range off enough in
            elim (Bool-cases ok) [
              | inr broken ↦ (
                false,
                m1,
                rw (good, e, broken, load_dependencies),
                a,
                λ e. cc,
                λ _.
                    subst (λ x. any_bad ms (λ q. q == i || blocks m1 q) (x ∷ ds) ≡ true) (sym de)
                      (ground (arith, found, down broken)),
              )
              | inl fine ↦
                  let (ok', m2, e', a', all, blame) =
                    load_dependencies_lem fuel load w i ds m1 a.sound (
                      omega (
                        arith,
                        enough,
                        count_free_same m1.stacked m.stacked (length ms) (λ q h. a.stack q),
                      )) in
                  (
                    ok',
                    m2,
                    rw (good, e, fine, load_dependencies) e',
                    Advances-trans ms init m m1 m2 a a',
                    λ good'. (
                      subst (λ x. AllDeps ms (is_up ms m2) (x ∷ ds)) (sym de)
                          ((k, found, a'.stays_up k (up fine).0), (all good').0),
                      λ j h. (up fine).1 j ((all good').1 j h),
                    ),
                    λ bad'.
                        subst (λ x. any_bad ms (λ q. q == i || blocks m2 q) (x ∷ ds) ≡ true)
                          (sym de) (ground (arith, found, blame bad')),
                  )
            ]
      ]

  -- The manager while the dependencies of `i` are loaded.
  abbrev marked : ℕ → Manager → Manager
  marked i m = record m { stacked = put m.stacked i true }

  marked-Sound : (i : ℕ) (m : Manager) → Sound ms init m → Sound ms init (marked i m)
  marked-Sound i m v = record {
    fresh = v.fresh;
    called = v.called;
    met = v.met;
    orderly = v.orderly;
    quiet = v.quiet;
    outcomes = v.outcomes;
    blamed = λ j h c.
        any_bad-weaken ms (blocks m) (blocks (marked i m)) (dependencies ms j)
          (λ k t. ground (arith, t)) (v.blamed j h c);
  }

  module _ (i : ℕ) (m m1 : Manager) (new : m.states i ≡ declared) (off : m.stacked i ≡ false)
      (a : Advances ms init (marked i m) m1) where
    still_new : m1.states i ≡ declared
    still_new = a.spares i (ground arith) ∙ new

    stack_back : (j : ℕ) → put m1.stacked i false j ≡ m.stacked j
    stack_back j = ground (arith, a.stack j, off, ap m.stacked {x = i} {y = j})

    -- A module that is up is another one.
    other_up : (j : ℕ) → is_up ms m1 j ≡ true → (i == j) ≡ false
    other_up j h = ground (arith, h, still_new, ap m1.states {x = i} {y = j})

    -- So is a module that was called.
    another : (j : ℕ) → has j m1.calls ≡ true → (i == j) ≡ false
    another j h = ground (
      arith,
      h,
      a.sound.fresh i (ap is_declared still_new),
      ap (λ k. has k m1.calls) {x = i} {y = j},
    )

    -- The parts that every end of the load shares: `m'` differs in the state of `i`, which is no
    -- longer DECLARED.
    ends-Advances :
        (m' : Manager) (st : ModuleState)
        → is_declared st ≡ false
        → Sound ms init m'
        → ((j : ℕ) → m'.states j ≡ put m1.states i st j)
        → ((j : ℕ) → m'.stacked j ≡ put m1.stacked i false j)
        → ((j : ℕ) → has j m1.calls ≡ true → has j m'.calls ≡ true)
        → Advances ms init m m'
    ends-Advances m' st done sound states stacked more = record {
      sound = sound;
      stack = λ j. stacked j ∙ stack_back j;
      stays_up = λ j h. ground (arith, states j, other_up j (a.stays_up j h), a.stays_up j h);
      stays_done = λ j h. ground (arith, states j, done, a.stays_done j h);
      stays_failed = λ j h. ground (
        arith,
        states j,
        h,
        new,
        a.stays_failed j h,
        ap (λ k. is_failed (m.states k)) {x = i} {y = j},
      );
      grows = λ j h. more j (a.grows j h);
      spares = λ j h. ground (arith, states j, off, h, ap m.stacked {x = i} {y = j}, a.spares j);
    }

    fail-Advances :
        any_bad ms (λ k. k == i || blocks m1 k) (dependencies ms i) ≡ true
        → Advances ms init m (fail i m1)
    fail-Advances bad =
        ends-Advances (fail i m1) failed refl
          (record {
            fresh = λ j h. ground (arith, h, a.sound.fresh j);
            called = λ j h. ground (arith, h, a.sound.called j);
            met = λ j h.
                AllDeps-weaken ms (is_up ms m1) (is_up ms (fail i m1)) (dependencies ms j)
                  (λ k t. ground (arith, t, other_up k t)) (a.sound.met j (ground (arith, h)));
            orderly = a.sound.orderly;
            quiet = λ j. ground (arith, a.sound.quiet j);
            outcomes =
                Outcomes-same init m1.states (fail i m1).states m1.calls
                  (λ j h. ground (arith, another j h)) a.sound.outcomes;
            blamed = λ j h c. elim (Bool-cases (i == j)) [
              | inl same ↦
                  subst (λ n. any_bad ms (blocks (fail i m1)) (dependencies ms n) ≡ true) {x = i}
                    (ground (arith, same))
                    (any_bad-weaken ms (λ k. k == i || blocks m1 k) (blocks (fail i m1))
                      (dependencies ms i) (λ k t. ground (arith, t)) bad)
              | inr apart ↦
                  any_bad-weaken ms (blocks m1) (blocks (fail i m1)) (dependencies ms j)
                    (λ k t. ground (arith, t)) (a.sound.blamed j (ground (arith, h, apart)) c)
            ];
          })
          (λ j. refl) (λ j. refl) (λ j h. h)

    -- The end with a call of the init function.
    module _ (rc : ℕ) (returned : rc ≡ init i m1.calls)
        (deps : AllDeps ms (is_up ms m1) (dependencies ms i)) (v : Sound ms init m)
        (none_fails : NoneFails ms init m m1) where
      abbrev ended : Bool × Manager
      ended = finish_load i rc (record m1 { states = put m1.states i loading })

      calls_first : Orderly ms (i ∷ m1.calls)
      unfolding Orderly
      calls_first = (
        a.sound.fresh i (ap is_declared still_new),
        AllDeps-weaken ms (is_up ms m1) (λ k. has k m1.calls) (dependencies ms i) a.sound.called
            deps,
        a.sound.orderly,
      )

      ends-Outcomes :
          (m' : Manager) (st : ModuleState)
          → st ≡ (if rc == 0 then failed else loaded)
          → ((j : ℕ) → m'.states j ≡ put m1.states i st j)
          → Outcomes init m'.states (i ∷ m1.calls)
      unfolding Outcomes
      ends-Outcomes m' st result states = (
        states i ∙ ground arith ∙ result ∙ ap (λ n. if n == 0 then failed else loaded) returned,
        Outcomes-same init m1.states m'.states m1.calls
            (λ j h. states j ∙ ground (arith, another j h)) a.sound.outcomes,
      )

      -- Who has failed without a call had failed before.
      still_blamed :
          (m' : Manager) (st : ModuleState)
          → ((j : ℕ) → m'.states j ≡ put m1.states i st j)
          → ((j : ℕ) → m'.stacked j ≡ put m1.stacked i false j)
          → (j : ℕ) → is_failed (m'.states j) ≡ true
          → has j (i ∷ m1.calls) ≡ false
          → any_bad ms (blocks m') (dependencies ms j) ≡ true
      unfolding has
      still_blamed m' st states stacked j h c =
          let old : is_failed (m.states j) ≡ true = none_fails j (ground (arith, h, c, states j)) in
          let uncalled : has j m.calls ≡ false = ground (arith, c, a.grows j) in
          any_bad-weaken ms (blocks m) (blocks m') (dependencies ms j)
            (λ k t. ground (
              arith,
              t,
              states k,
              stacked k ∙ stack_back k,
              a.stays_failed k,
              new,
              ap (λ q. is_failed (m.states q)) {x = i} {y = k},
            ))
            (v.blamed j old uncalled)

      called-Sound :
          (m' : Manager) (st : ModuleState)
          → is_declared st ≡ false
          → st ≡ (if rc == 0 then failed else loaded)
          → ((j : ℕ) → m'.states j ≡ put m1.states i st j)
          → ((j : ℕ) → m'.stacked j ≡ put m1.stacked i false j)
          → m'.calls ≡ i ∷ m1.calls
          → Sound ms init m'
      unfolding has
      called-Sound m' st done result states stacked calls =
          let later : (k : ℕ) → is_up ms m1 k ≡ true → is_up ms m' k ≡ true =
            λ k t. ground (arith, states k, other_up k t, t) in
          record {
            fresh = λ j h. ground (arith, states j, h, done, a.sound.fresh j, ap (has j) calls);
            called = λ j h. ground (arith, states j, h, a.sound.called j, ap (has j) calls);
            met = λ j h. elim (Bool-cases (i == j)) [
              | inl same ↦
                  subst (λ n. AllDeps ms (is_up ms m') (dependencies ms n)) {x = i}
                    (ground (arith, same))
                    (AllDeps-weaken ms (is_up ms m1) (is_up ms m') (dependencies ms i) later deps)
              | inr apart ↦
                  AllDeps-weaken ms (is_up ms m1) (is_up ms m') (dependencies ms j) later
                    (a.sound.met j (ground (arith, states j, apart, h)))
            ];
            orderly = subst (Orderly ms) (sym calls) calls_first;
            quiet = λ j. ground (arith, states j, result, a.sound.quiet j);
            outcomes =
                subst (Outcomes init m'.states) (sym calls) (ends-Outcomes m' st result states);
            blamed = λ j h c. still_blamed m' st states stacked j h (sym (ap (has j) calls) ∙ c);
          }

      finish-Advances :
          Advances ms init m ended.1
          × (ended.0 ≡ true → (is_up ms ended.1 i ≡ true) × NoneFails ms init m ended.1)
          × (ended.0 ≡ false → is_failed (ended.1.states i) ≡ true)
          × (is_declared (ended.1.states i) ≡ false)
      unfolding has
      finish-Advances = elim (Bool-cases (rc == 0)) [
        | inl bad ↦
            let states : (j : ℕ) → ended.1.states j ≡ put m1.states i failed j =
              λ j. ground (arith, bad) in
            let stacked : (j : ℕ) → ended.1.stacked j ≡ put m1.stacked i false j =
              λ j. ground (arith, bad) in
            let calls : ended.1.calls ≡ i ∷ m1.calls = ground (arith, bad) in
            (
              ends-Advances ended.1 failed refl
                  (called-Sound ended.1 failed refl (ground (arith, bad)) states stacked calls)
                  states stacked (λ j h. ap (has j) calls ∙ ground (arith, h)),
              λ h. absurd (ground (arith, bad, h)),
              λ h. ground (arith, bad),
              ground (arith, bad),
            )
        | inr good ↦
            let states : (j : ℕ) → ended.1.states j ≡ put m1.states i loaded j =
              λ j. ground (arith, good) in
            let stacked : (j : ℕ) → ended.1.stacked j ≡ put m1.stacked i false j =
              λ j. ground (arith, good) in
            let calls : ended.1.calls ≡ i ∷ m1.calls = ground (arith, good) in
            (
              ends-Advances ended.1 loaded refl
                  (called-Sound ended.1 loaded refl (ground (arith, good)) states stacked calls)
                  states stacked (λ j h. ap (has j) calls ∙ ground (arith, h)),
              λ h. (ground (arith, good), λ j f. none_fails j (ground (arith, f, states j))),
              λ h. absurd (ground (arith, good, h)),
              ground (arith, good),
            )
      ]

  load_declared_lem :
      (fuel : ℕ) (load : ℕ → Manager → Option (Bool × Manager))
      → Works ms init fuel load
      → (i : ℕ) (m : Manager) → Sound ms init m
      → i < length ms
      → m.states i ≡ declared
      → m.stacked i ≡ false
      → unmarked ms init m ≤ suc fuel
      → Returns ms init i m (load_declared ms init load i m)
  unfolding load_declared Returns
  load_declared_lem fuel load w i m v in_range new off enough =
      let fewer =
        count_free_take m.stacked (marked i m).stacked i (length ms) in_range off (λ q. refl) in
      let (ok, m1, e, a, all, blame) =
        load_dependencies_lem fuel load w i (dependencies ms i) (marked i m) (marked-Sound i m v)
          (omega (arith, fewer, enough)) in
      elim (Bool-cases ok) [
        | inr broken ↦ (
          false,
          fail i m1,
          rw (e, broken, load_declared),
          fail-Advances i m m1 new off a (blame broken),
          λ h. cc,
          λ h. ground arith,
          ground arith,
        )
        | inl fine ↦
            let (adv, up, down, settled) =
              finish-Advances i m m1 new off a (init i m1.calls) refl (all fine).0 v (all fine).1 in
            let done =
              finish_load i (init i m1.calls) (record m1 { states = put m1.states i loading }) in
            (done.0, done.1, rw (e, fine, load_declared), adv, up, down, settled)
      ]

  -- One call, by the state of the module.
  load_at :
      (fuel : ℕ)
      → Works ms init fuel (module_load_index ms init fuel)
      → (k : ℕ) (m : Manager) → Sound ms init m
      → k < length ms
      → m.stacked k ≡ false
      → unmarked ms init m ≤ suc fuel
      → (st : ModuleState) → m.states k ≡ st
      → Returns ms init k m (module_load_index ms init (suc fuel) k m)
  unfolding module_load_index Returns
  load_at fuel w k m v in_range off enough declared e =
      let here : ltb k (length ms) ≡ true = ground arith in
      rw (here, e, module_load_index)
        (load_declared_lem fuel (module_load_index ms init fuel) w k m v in_range e off enough)
  load_at fuel w k m v in_range off enough loading e = absurd (ground (arith, e, v.quiet k))
  load_at fuel w k m v in_range off enough loaded e = (
    true,
    m,
    ground (arith, e),
    Advances-refl ms init m v,
    λ h. (ap is_loaded e, λ j f. f),
    λ h. cc,
    ap is_declared e,
  )
  load_at fuel w k m v in_range off enough failed e = (
    false,
    m,
    ground (arith, e),
    Advances-refl ms init m v,
    λ h. cc,
    λ h. ap is_failed e,
    ap is_declared e,
  )

  -- With as much fuel as modules are unmarked the call returns.
  pub module_load_index-Works : (fuel : ℕ) → Works ms init fuel (module_load_index ms init fuel)
  unfolding Works
  module_load_index-Works zero k m v in_range off enough = absurd (
      omega (
        arith,
        enough,
        count_free_take m.stacked (marked k m).stacked k (length ms) in_range off (λ q. refl),
      ))
  module_load_index-Works (suc fuel) k m v in_range off enough =
      load_at fuel (module_load_index-Works fuel) k m v in_range off enough (m.states k) refl
