-- ===== src/Modules/Soundness.antt =====
-- kernel/core/module/module.c: what holds of the manager between loads, and what a load does to it.
use nexus_os.Base.{
  inl, inr, Option-cases, if◌then◌else◌, ℕ, ◌≤◌, ◌<◌, ◌≡◌, refl, ◌∙◌, Bool, true, false, ◌||◌,
  Option, none, some, List, [], ◌∷◌, ◌==◌, length, get_or, arith,
}
use nexus_os.Base.Count.{count_free}
use nexus_os.Modules.{
  Module, no_module, Manager, ModuleState, loading, loaded, failed, is_declared, is_loaded,
  module_index,
}

unfoldable pub has : ℕ → List ℕ → Bool
has i [] = false
has i (j ∷ js) = j == i || has i js

module _ (ms : List Module) where
  abbrev pub dependencies : ℕ → List (Option (List ℕ))
  dependencies i = (get_or ms i no_module).dependencies

  -- Every dependency is a registered module that passes the test.
  unfoldable pub AllDeps : (ℕ → Bool) → List (Option (List ℕ)) → Type 0
  AllDeps p [] = Unit
  AllDeps p (none ∷ ds) = ⊥
  AllDeps p (some name ∷ ds) =
      ((k : ℕ) × (module_index ms name ≡ some k) × (p k ≡ true)) × AllDeps p ds

  pub AllDeps-weaken :
      (p q : ℕ → Bool) (ds : List (Option (List ℕ)))
      → ((k : ℕ) → p k ≡ true → q k ≡ true)
      → AllDeps p ds
      → AllDeps q ds
  unfolding AllDeps
  AllDeps-weaken p q [] h a = tt
  AllDeps-weaken p q (none ∷ ds) h a = a
  AllDeps-weaken p q (some name ∷ ds) h ((k, e, t), a) = ((k, e, h k t), AllDeps-weaken p q ds h a)

  -- No module is called twice, and each after its dependencies; the latest call first.
  unfoldable pub Orderly : List ℕ → Type 0
  Orderly [] = Unit
  Orderly (i ∷ cs) = (has i cs ≡ false) × AllDeps (λ k. has k cs) (dependencies i) × Orderly cs

  abbrev pub is_up : Manager → ℕ → Bool
  is_up m i = is_loaded (m.states i)

abbrev pub is_failed : ModuleState → Bool
is_failed failed = true
is_failed _ = false

-- Some dependency is not registered or passes the test.
unfoldable pub any_bad : List Module → (ℕ → Bool) → List (Option (List ℕ)) → Bool
any_bad ms p [] = false
any_bad ms p (none ∷ ds) = true
any_bad ms p (some name ∷ ds) =
    elim (module_index ms name) [ none ↦ true | some k ↦ p k ] || any_bad ms p ds

pub any_bad-weaken :
    (ms : List Module) (p q : ℕ → Bool) (ds : List (Option (List ℕ)))
    → ((k : ℕ) → p k ≡ true → q k ≡ true)
    → any_bad ms p ds ≡ true
    → any_bad ms q ds ≡ true
unfolding any_bad
any_bad-weaken ms p q [] h e = e
any_bad-weaken ms p q (none ∷ ds) h e = refl
any_bad-weaken ms p q (some name ∷ ds) h e = elim (Option-cases (module_index ms name)) [
  | inl absent ↦ ground (arith, absent)
  | inr (k, found) ↦ ground (arith, e, found, h k, any_bad-weaken ms p q ds h)
]

-- What keeps a module from being loaded: it has failed, or its own dependencies are being loaded.
abbrev pub blocks : Manager → ℕ → Bool
blocks m k = is_failed (m.states k) || m.stacked k

-- A module whose init function was called is FAILED if that returned 0, and else LOADED; `states` are
-- the states now, and the latest call is first.
unfoldable pub Outcomes : (ℕ → List ℕ → ℕ) → (ℕ → ModuleState) → List ℕ → Type 0
Outcomes init states [] = Unit
Outcomes init states (i ∷ cs) =
    (states i ≡ (if init i cs == 0 then failed else loaded)) × Outcomes init states cs

pub Outcomes-same :
    (init : ℕ → List ℕ → ℕ) (f g : ℕ → ModuleState) (cs : List ℕ)
    → ((j : ℕ) → has j cs ≡ true → g j ≡ f j)
    → Outcomes init f cs
    → Outcomes init g cs
unfolding Outcomes has
Outcomes-same init f g [] h o = tt
Outcomes-same init f g (i ∷ cs) h (first, rest) =
    (h i (ground arith) ∙ first, Outcomes-same init f g cs (λ j e. h j (ground (arith, e))) rest)

abbrev pub is_loading : ModuleState → Bool
is_loading loading = true
is_loading _ = false

module _ (ms : List Module) (init : ℕ → List ℕ → ℕ) where
  pub record Sound (m : Manager) : Type 0 where
    pub fresh : (i : ℕ) → is_declared (m.states i) ≡ true → has i m.calls ≡ false
    pub called : (i : ℕ) → is_up ms m i ≡ true → has i m.calls ≡ true
    pub met : (i : ℕ) → is_up ms m i ≡ true → AllDeps ms (is_up ms m) (dependencies ms i)
    pub orderly : Orderly ms m.calls
    pub quiet : (i : ℕ) → is_loading (m.states i) ≡ false
    pub outcomes : Outcomes init m.states m.calls
    pub blamed :
        (i : ℕ)
        → is_failed (m.states i) ≡ true
        → has i m.calls ≡ false
        → any_bad ms (blocks m) (dependencies ms i) ≡ true

  -- What loading does to the manager.
  pub record Advances (m m' : Manager) : Type 0 where
    pub sound : Sound m'
    pub stack : (j : ℕ) → m'.stacked j ≡ m.stacked j
    pub stays_up : (j : ℕ) → is_up ms m j ≡ true → is_up ms m' j ≡ true
    pub stays_done : (j : ℕ) → is_declared (m.states j) ≡ false → is_declared (m'.states j) ≡ false
    pub stays_failed : (j : ℕ) → is_failed (m.states j) ≡ true → is_failed (m'.states j) ≡ true
    pub grows : (j : ℕ) → has j m.calls ≡ true → has j m'.calls ≡ true
    pub spares : (j : ℕ) → m.stacked j ≡ true → m'.states j ≡ m.states j

  pub Advances-refl : (m : Manager) → Sound m → Advances m m
  Advances-refl m v = record {
    sound = v;
    stack = λ j. refl;
    stays_up = λ j h. h;
    stays_done = λ j h. h;
    stays_failed = λ j h. h;
    grows = λ j h. h;
    spares = λ j h. refl;
  }

  pub Advances-trans : (l m n : Manager) → Advances l m → Advances m n → Advances l n
  Advances-trans l m n a b = record {
    sound = b.sound;
    stack = λ j. b.stack j ∙ a.stack j;
    stays_up = λ j h. b.stays_up j (a.stays_up j h);
    stays_done = λ j h. b.stays_done j (a.stays_done j h);
    stays_failed = λ j h. b.stays_failed j (a.stays_failed j h);
    grows = λ j h. b.grows j (a.grows j h);
    spares = λ j h. b.spares j (a.stack j ∙ h) ∙ a.spares j h;
  }

  abbrev pub unmarked : Manager → ℕ
  unmarked m = count_free m.stacked (length ms)

  -- No module has failed meanwhile.
  abbrev pub NoneFails : Manager → Manager → Type 0
  NoneFails m m' = (j : ℕ) → is_failed (m'.states j) ≡ true → is_failed (m.states j) ≡ true

  -- A call that returns: what it does, and that a reported success is one.
  unfoldable pub Returns : ℕ → Manager → Option (Bool × Manager) → Type 0
  Returns i m r =
      (ok : Bool) × (m' : Manager) × (r ≡ some (ok, m'))
      × Advances m m'
      × (ok ≡ true → (is_up ms m' i ≡ true) × NoneFails m m')
      × (ok ≡ false → is_failed (m'.states i) ≡ true)
      × (is_declared (m'.states i) ≡ false)

  -- Loads, from every manager with at most `fuel` unmarked modules.
  unfoldable pub Works : ℕ → (ℕ → Manager → Option (Bool × Manager)) → Type 0
  Works fuel load =
      (k : ℕ) (m : Manager)
      → Sound m
      → k < length ms
      → m.stacked k ≡ false
      → unmarked m ≤ fuel
      → Returns k m (load k m)
