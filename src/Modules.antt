-- ===== src/Modules.antt =====
-- kernel/core/module/module.c and module.h: the loader of kernel modules. The init functions are a
-- parameter: the value that the init function of a module returns after the calls made so far.
-- Console output is left out.
pub mod Soundness
pub mod Load
pub mod All
mod Tests
use nexus_os.Base.{
  ℕ, zero, suc, ◌+◌, Bool, true, false, ◌&&◌, ◌||◌, not, Option, none, some, List, [], ◌∷◌, ltb,
  ◌==◌, if◌then◌else◌, length, get_or, take,
}
use nexus_os.Base.Text.{str_eq}

-- NEXUS_MODULE_MAX and NEXUS_MODULE_MAGIC
abbrev pub module_max : ℕ
module_max = 32

abbrev pub module_magic : ℕ
module_magic = 0x4D4F4458

-- `nexus_module_descriptor_t`; a null pointer is none, and `has_init` says that init is not null.
pub record Descriptor : Type 0 where
  pub magic : ℕ
  pub name : Option (List ℕ)
  pub priority : ℕ
  pub has_init : Bool
  pub dependencies : List (Option (List ℕ))

-- NEXUS_MODULE_STATE_
pub data ModuleState : Type 0 where
  declared loading loaded failed : ModuleState

abbrev pub is_declared : ModuleState → Bool
is_declared declared = true
is_declared _ = false

abbrev pub is_loaded : ModuleState → Bool
is_loaded loaded = true
is_loaded _ = false

-- What a `nexus_module_runtime_t` points to of a module that is registered.
pub record Module : Type 0 where
  pub name : List ℕ
  pub priority : ℕ
  pub dependencies : List (Option (List ℕ))

abbrev pub no_module : Module
no_module = record { name = []; priority = 0; dependencies = [] }

-- The registered modules, at most NEXUS_MODULE_MAX: the descriptors with the magic number, a name
-- and an init function.
pub registered : List Descriptor → List Module
registered [] = []
registered (d ∷ ds) = elim d.name [
  | none ↦ registered ds
  | some name ↦
      let rest = registered ds in
      if d.magic == module_magic && d.has_init
      then record { name = name; priority = d.priority; dependencies = d.dependencies } ∷ rest
      else rest
]

-- The states in g_runtime, the counters and g_dependency_stack; `calls` are the modules whose init
-- function has been called, the latest first.
pub record Manager : Type 0 where
  pub states : ℕ → ModuleState
  pub results : ℕ → ℕ
  pub stacked : ℕ → Bool
  pub loaded_count : ℕ
  pub failed_count : ℕ
  pub calls : List ℕ

-- The call at boot, where g_dependency_stack is still all 0.
pub module_manager_init : List Descriptor → List Module × Manager
module_manager_init ds = (
  take module_max (registered ds),
  record {
    states = λ _. declared;
    results = λ _. 0;
    stacked = λ _. false;
    loaded_count = 0;
    failed_count = 0;
    calls = [];
  },
)

abbrev pub put {ℓ} : {A : Type ℓ} → (ℕ → A) → ℕ → A → ℕ → A
put f i v j = if i == j then v else f j

-- The first index from `i` on whose module has the name; find_runtime and module_index.
pub index_from : List Module → ℕ → List ℕ → Option ℕ
index_from [] i name = none
index_from (m ∷ ms) i name = if str_eq m.name name then some i else index_from ms (i + 1) name

abbrev pub module_index : List Module → List ℕ → Option ℕ
module_index ms name = index_from ms 0 name

-- r->state = FAILED; ++g_failed; the mark on the stack is taken off.
abbrev pub fail : ℕ → Manager → Manager
fail i m = record m {
  states = put m.states i failed;
  results = put m.results i 0;
  failed_count = m.failed_count + 1;
  stacked = put m.stacked i false;
}

abbrev pub finish_load : ℕ → ℕ → Manager → Bool × Manager
finish_load i rc m =
    let called = record m {
      results = put m.results i rc;
      stacked = put m.stacked i false;
      calls = i ∷ m.calls;
    } in
    if rc == 0
    then (
      false,
      record called { states = put m.states i failed; failed_count = m.failed_count + 1 },
    )
    else (true, record called { states = put m.states i loaded; loaded_count = m.loaded_count + 1 })

-- The tests on a dependency before it is loaded: its index, if it has one other than `i` and is not
-- on the stack.
abbrev pub usable_index : List Module → ℕ → Option (List ℕ) → Manager → Option ℕ
usable_index ms i none m = none
usable_index ms i (some name) m = elim (module_index ms name) [
  | none ↦ none
  | some k ↦ if k == i || m.stacked k then none else some k
]

-- The loop over the dependencies; `load` is the recursive call. None means that its fuel ran out.
pub load_dependencies :
    List Module
    → (ℕ → Manager → Option (Bool × Manager))
    → ℕ
    → List (Option (List ℕ))
    → Manager
    → Option (Bool × Manager)
load_dependencies ms load i [] m = some (true, m)
load_dependencies ms load i (d ∷ ds) m = elim (usable_index ms i d m) [
  | none ↦ some (false, m)
  | some k ↦ elim (load k m) [
    | none ↦ none
    | some (ok, m1) ↦
        let rest = load_dependencies ms load i ds m1 in if ok then rest else some (false, m1)
  ]
]

-- The part of module_load_index behind its early returns.
pub load_declared :
    List Module
    → (ℕ → List ℕ → ℕ)
    → (ℕ → Manager → Option (Bool × Manager))
    → ℕ
    → Manager
    → Option (Bool × Manager)
load_declared ms init load i m =
    elim (load_dependencies ms load i (get_or ms i no_module).dependencies
      (record m { stacked = put m.stacked i true })) [
        | none ↦ none
        | some (ok, m1) ↦
            let done =
              finish_load i (init i m1.calls) (record m1 { states = put m1.states i loading }) in
            if ok then some done else some (false, fail i m1)
      ]

pub module_load_index : List Module → (ℕ → List ℕ → ℕ) → ℕ → ℕ → Manager → Option (Bool × Manager)
module_load_index ms init zero i m = none
module_load_index ms init (suc fuel) i m =
    let run = load_declared ms init (module_load_index ms init fuel) i m in
    if ltb i (length ms)
    then elim (m.states i) [
      | loaded ↦ some (true, m)
      | failed ↦ some (false, m)
      | loading ↦ some (false, m)
      | declared ↦ run
    ]
    else some (false, m)

-- Each recursive call marks a module that was not marked.
abbrev pub depth : List Module → ℕ
depth ms = length ms + 1

pub module_load : List Module → (ℕ → List ℕ → ℕ) → List ℕ → Manager → Option (Bool × Manager)
module_load ms init name m = elim (module_index ms name) [
  | none ↦ some (false, m)
  | some i ↦ elim (m.states i) [
    | loaded ↦ some (true, m)
    | loading ↦ some (false, m)
    | failed ↦ module_load_index ms init (depth ms) i m
    | declared ↦ module_load_index ms init (depth ms) i m
  ]
]

-- `best` of find_next_declared.
abbrev pub better : List Module → Manager → ℕ → Option ℕ → Option ℕ
better ms m i none = if is_declared (m.states i) then some i else none
better ms m i (some best) =
    if is_declared (m.states i)
      && ltb (get_or ms i no_module).priority (get_or ms best no_module).priority
    then some i
    else some best

pub next_from : List Module → Manager → ℕ → ℕ → Option ℕ → Option ℕ
next_from ms m zero i best = best
next_from ms m (suc rounds) i best = next_from ms m rounds (i + 1) (better ms m i best)

abbrev pub find_next_declared : List Module → Manager → Option ℕ
find_next_declared ms m = next_from ms m (length ms) 0 none

-- The loop of module_load_all.
pub load_all_from : ℕ → List Module → (ℕ → List ℕ → ℕ) → Manager → Option Manager
load_all_from zero ms init m = none
load_all_from (suc fuel) ms init m = elim (find_next_declared ms m) [
  | none ↦ some m
  | some i ↦ elim (module_load ms init (get_or ms i no_module).name m) [
    | none ↦ none
    | some (ok, m1) ↦ load_all_from fuel ms init m1
  ]
]

-- Each round leaves one module less in the state DECLARED.
pub module_load_all : List Module → (ℕ → List ℕ → ℕ) → Manager → Option Manager
module_load_all ms init m = load_all_from (length ms + 1) ms init m

pub module_is_loaded : List Module → Manager → List ℕ → Bool
module_is_loaded ms m name = elim (module_index ms name) [
  | none ↦ false
  | some i ↦ is_loaded (m.states i)
]

pub module_dependency_count : List Module → List ℕ → Option ℕ
module_dependency_count ms name = elim (module_index ms name) [
  | none ↦ none
  | some i ↦ some (length (get_or ms i no_module).dependencies)
]

-- A null pointer is the name of no module.
pub any_missing : List Module → Manager → List (Option (List ℕ)) → Bool
any_missing ms m [] = false
any_missing ms m (none ∷ ds) = true
any_missing ms m (some name ∷ ds) = not (module_is_loaded ms m name) || any_missing ms m ds

pub module_dependency_failed : List Module → Manager → List ℕ → Bool
module_dependency_failed ms m name = elim (module_index ms name) [
  | none ↦ true
  | some i ↦ any_missing ms m (get_or ms i no_module).dependencies
]

-- What module_load_all returns.
abbrev pub loaded_by_all : List Module → Manager → Manager → ℕ
loaded_by_all ms before after = elim (find_next_declared ms before) [
  | none ↦ 0
  | some i ↦ after.loaded_count
]
