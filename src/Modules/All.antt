-- ===== src/Modules/All.antt =====
-- module_load_all ends, with no module left in the state DECLARED.
use nexus_os.Base.{
  ℕ, zero, suc, ◌+◌, ◌≤◌, ◌<◌, ◌≡◌, refl, ap, ◌∙◌, inl, inr, Bool, true, false, not, Option, none,
  some, List, [], ◌∷◌, length, get_or, arith, Option-cases,
}
use nexus_os.Base.Count.{count_free, count_free-le, count_free-lt}
use nexus_os.Modules.{
  is_loaded, Module, no_module, Descriptor, Manager, ModuleState, declared, loading, loaded, failed,
  is_declared, module_index, module_manager_init, any_missing, module_is_loaded,
  module_dependency_failed, depth, module_load, better, next_from, find_next_declared,
  load_all_from, module_load_all,
}
use nexus_os.Modules.Soundness.{
  is_failed, any_bad, any_bad-weaken, blocks, Outcomes, is_loading, has, Orderly, AllDeps,
  dependencies, is_up, Sound, Advances, Advances-trans, Advances-refl, Returns, Works,
}
use nexus_os.Modules.Load.{module_load_index-Works}

declared_state : (st : ModuleState) → is_declared st ≡ true → st ≡ declared
declared_state declared e = refl
declared_state loading e = cc
declared_state loaded e = cc
declared_state failed e = cc

module _ (ms : List Module) where
  -- The search gives a declared module, if there is one.
  better_found :
      (i : ℕ) (m : Manager) (best : Option ℕ)
      → ((b : ℕ) → best ≡ some b → (b < length ms) × (is_declared (m.states b) ≡ true))
      → i < length ms
      → (b : ℕ) → better ms m i best ≡ some b
      → (b < length ms) × (is_declared (m.states b) ≡ true)
  better_found i m none h small b e =
      (ground (arith, e), ground (arith, e, ap (λ k. is_declared (m.states k)) {x = i} {y = b}))
  better_found i m (some a) h small b e = (
    ground (arith, e, h a refl),
    ground (
      arith,
      e,
      h a refl,
      ap (λ k. is_declared (m.states k)) {x = i} {y = b},
      ap (λ k. is_declared (m.states k)) {x = a} {y = b},
    ),
  )

  next_found :
      (rounds i : ℕ) (m : Manager) (best : Option ℕ)
      → ((b : ℕ) → best ≡ some b → (b < length ms) × (is_declared (m.states b) ≡ true))
      → i + rounds ≤ length ms
      → (b : ℕ) → next_from ms m rounds i best ≡ some b
      → (b < length ms) × (is_declared (m.states b) ≡ true)
  unfolding next_from
  next_found zero i m best h small b e = h b e
  next_found (suc rounds) i m best h small b e =
      next_found rounds (i + 1) m (better ms m i best) (better_found i m best h (omega arith))
        (omega arith) b e

  better-none :
      (i : ℕ) (m : Manager) (best : Option ℕ)
      → better ms m i best ≡ none
      → (best ≡ none) × (is_declared (m.states i) ≡ false)
  better-none i m none e = (refl, ground (arith, e))
  better-none i m (some a) e = absurd (ground (arith, e))

  next_none :
      (rounds i : ℕ) (m : Manager) (best : Option ℕ)
      → next_from ms m rounds i best ≡ none
      → (best ≡ none) × ((j : ℕ) → i ≤ j → j < i + rounds → is_declared (m.states j) ≡ false)
  unfolding next_from
  next_none zero i m best e = (e, λ j h k. absurd (omega arith))
  next_none (suc rounds) i m best e =
      let (none_yet, later) = next_none rounds (i + 1) m (better ms m i best) e in
      let (none_before, here) = better-none i m best none_yet in
      (
        none_before,
        λ j h k. ground (arith, here, later j, ap (λ q. is_declared (m.states q)) {x = i} {y = j}),
      )

  -- Every module has a name of its own.
  unfoldable pub Distinct : Type 0
  Distinct = (i : ℕ) → i < length ms → module_index ms (get_or ms i no_module).name ≡ some i

  module _ (init : ℕ → List ℕ → ℕ) where
    -- The modules in the state DECLARED.
    abbrev waiting : Manager → ℕ
    waiting m = count_free (λ i. not (is_declared (m.states i))) (length ms)

    -- One round of the loop.
    round_lem :
        (m : Manager) (i : ℕ)
        → Distinct
        → Sound ms init m
        → ((j : ℕ) → m.stacked j ≡ false)
        → i < length ms
        → is_declared (m.states i) ≡ true
        → (ok : Bool) × (m1 : Manager) × (module_load ms init (get_or ms i no_module).name m
            ≡ some (ok, m1))
          × Advances ms init m m1
          × (waiting m1 < waiting m)
    unfolding module_load Works Returns Distinct
    round_lem m i names v clear small new =
        let (ok, m1, e, a, up, down, settled) =
          module_load_index-Works ms init (depth ms) i m v small (clear i)
            (omega (arith, count_free-le m.stacked (length ms))) in
        (
          ok,
          m1,
          rw (names i small, declared_state (m.states i) new, module_load) e,
          a,
          count_free-lt (λ j. not (is_declared (m.states j))) (λ j. not (is_declared (m1.states j)))
              i (length ms) (λ q h. ground (arith, h, a.stays_done q)) small (ground (arith, new))
              (ground (arith, settled)),
        )

    load_all_lem :
        (fuel : ℕ) (m : Manager)
        → Distinct
        → Sound ms init m
        → ((i : ℕ) → m.stacked i ≡ false)
        → waiting m < fuel
        → (m' : Manager) × (load_all_from fuel ms init m ≡ some m')
          × Advances ms init m m'
          × ((i : ℕ) → i < length ms → is_declared (m'.states i) ≡ false)
    unfolding load_all_from
    load_all_lem zero m names v clear enough = absurd (omega arith)
    load_all_lem (suc fuel) m names v clear enough = elim (Option-cases (find_next_declared ms m)) [
      | inl finished ↦ (
        m,
        rw (finished, load_all_from),
        Advances-refl ms init m v,
        λ i h. (next_none (length ms) 0 m none finished).1 i (omega arith) (omega arith),
      )
      | inr (i, found) ↦
          let (small, new) = next_found (length ms) 0 m none (λ b h. cc) (omega arith) i found in
          let (ok, m1, e, a, fewer) = round_lem m i names v clear small new in
          let (m2, e', a', done) =
            load_all_lem fuel m1 names a.sound (λ j. a.stack j ∙ clear j) (omega arith) in
          (m2, rw (found, e, load_all_from) e', Advances-trans ms init m m1 m2 a a', done)
    ]

none_missing :
    (ms : List Module) (m : Manager) (ds : List (Option (List ℕ)))
    → AllDeps ms (is_up ms m) ds
    → any_missing ms m ds ≡ false
unfolding AllDeps any_missing module_is_loaded
none_missing ms m [] a = refl
none_missing ms m (none ∷ ds) a = elim a [ ]
none_missing ms m (some name ∷ ds) ((k, e, up), a) = ground (arith, e, up, none_missing ms m ds a)

none_failed :
    (ms : List Module) (init : ℕ → List ℕ → ℕ) (m : Manager) (name : List ℕ)
    → Sound ms init m
    → module_is_loaded ms m name ≡ true
    → module_dependency_failed ms m name ≡ false
unfolding module_is_loaded module_dependency_failed
none_failed ms init m name v e = elim (Option-cases (module_index ms name)) [
  | inl absent ↦ ground (arith, absent, e)
  | inr (i, found) ↦
      ground (
        arith,
        found,
        e,
        none_missing ms m (dependencies ms i) (v.met i (ground (arith, found, e))),
      )
]

not_called :
    (st : ModuleState)
    → is_declared st ≡ false
    → is_loading st ≡ false
    → is_loaded st ≡ false
    → st ≡ failed
not_called declared d l u = cc
not_called loading d l u = cc
not_called loaded d l u = cc
not_called failed d l u = refl

-- When every registered module is found by its own name, so that no two have the same,
-- module_load_all after module_manager_init ends, whatever the init functions return and however the
-- dependencies name each other. Then a module whose init function was called is FAILED if that
-- returned 0, and else LOADED. A module whose init function was not called is FAILED, and it has a
-- dependency that is FAILED or is not the name of a registered module. The stack of dependencies is
-- empty again, no init function was called twice, each was called after those of all the module's
-- dependencies, and every loaded module has all its dependencies loaded.
pub module_load_all_lem :
    (ds : List Descriptor) (init : ℕ → List ℕ → ℕ)
    → Distinct (module_manager_init ds).0
    → (m : Manager) × (module_load_all (module_manager_init ds).0 init (module_manager_init ds).1
        ≡ some m)
      × Outcomes init m.states m.calls
      × ((i : ℕ)
          → i < length (module_manager_init ds).0
          → has i m.calls ≡ false
          → (m.states i ≡ failed)
            × (any_bad
                  (module_manager_init ds).0
                  (λ k. is_failed (m.states k))
                  (dependencies (module_manager_init ds).0 i)
                ≡ true))
      × ((i : ℕ) → m.stacked i ≡ false)
      × Orderly (module_manager_init ds).0 m.calls
      × ((name : List ℕ)
          → module_is_loaded (module_manager_init ds).0 m name ≡ true
          → module_dependency_failed (module_manager_init ds).0 m name ≡ false)
unfolding module_load_all module_manager_init has Orderly Outcomes
module_load_all_lem ds init names =
    let (ms, m) = module_manager_init ds in
    let fresh : Sound ms init m = record {
      fresh = λ i h. refl;
      called = λ i h. cc;
      met = λ i h. cc;
      orderly = tt;
      quiet = λ i. refl;
      outcomes = tt;
      blamed = λ i h c. cc;
    } in
    let (m', e, a, done) =
      load_all_lem ms init (length ms + 1) m names fresh (λ i. refl)
        (omega (arith, count_free-le (λ j. not (is_declared (m.states j))) (length ms))) in
    (
      m',
      e,
      a.sound.outcomes,
      λ i small never.
          let fails =
            not_called (m'.states i) (done i small) (a.sound.quiet i)
              (ground (arith, never, a.sound.called i)) in
          (
            fails,
            any_bad-weaken ms (blocks m') (λ k. is_failed (m'.states k)) (dependencies ms i)
                (λ k t. ground (arith, t, a.stack k)) (a.sound.blamed i (ap is_failed fails) never),
          ),
      a.stack,
      a.sound.orderly,
      λ name. none_failed ms init m' name a.sound,
    )
