-- ===== src/Modules/Tests.antt =====
-- Five modules, the last two of them depending on each other.
use nexus_os.Base.{
  ℕ, zero, suc, ◌<◌, ◌≡◌, refl, true, false, Option, none, some, List, [], ◌∷◌, arith, length,
}
use nexus_os.Base.Text.{codes, str_eq}
use nexus_os.Modules.{
  failed, Descriptor, Manager, Module, module_magic, module_manager_init, module_load_all,
  module_is_loaded, module_dependency_failed, index_from, registered, load_all_from, next_from,
  module_load, module_load_index, load_declared, load_dependencies,
}
use nexus_os.Modules.All.{Distinct, module_load_all_lem}
use nexus_os.Modules.Soundness.{any_bad, is_failed, dependencies, Orderly, Outcomes, has}

abbrev descriptor : List ℕ → ℕ → List (Option (List ℕ)) → Descriptor
descriptor name priority deps = record {
  magic = module_magic;
  name = some name;
  priority = priority;
  has_init = true;
  dependencies = deps;
}

abbrev descriptors : List Descriptor
descriptors =
    descriptor (codes "vfs") 10 (some (codes "heap") ∷ [])
    ∷ descriptor (codes "heap") 20 []
    ∷ descriptor (codes "usb") 30 (some (codes "vfs") ∷ some (codes "absent") ∷ [])
    ∷ descriptor (codes "a") 40 (some (codes "b") ∷ [])
    ∷ descriptor (codes "b") 50 (some (codes "a") ∷ [])
    ∷ []

abbrev modules : List Module
modules = (module_manager_init descriptors).0

-- Every init function succeeds.
abbrev succeeds : ℕ → List ℕ → ℕ
succeeds i calls = 1

modules-Distinct : Distinct modules
unfolding Distinct index_from module_manager_init registered str_eq
modules-Distinct zero h = refl
modules-Distinct (suc zero) h = refl
modules-Distinct (suc (suc zero)) h = refl
modules-Distinct (suc (suc (suc zero))) h = refl
modules-Distinct (suc (suc (suc (suc zero)))) h = refl
modules-Distinct (suc (suc (suc (suc (suc i))))) h = absurd (omega arith)

abbrev calls_of : Option Manager → List ℕ
calls_of none = []
calls_of (some m) = m.calls

loads_in_order :
    calls_of (module_load_all modules succeeds (module_manager_init descriptors).1) ≡ 0 ∷ 1 ∷ []
unfolding module_load_all load_all_from module_manager_init registered next_from module_load
    index_from str_eq module_load_index load_declared load_dependencies
loads_in_order = refl

module_load_all_lem_example :
    (m : Manager) × (module_load_all modules succeeds (module_manager_init descriptors).1 ≡ some m)
    × Outcomes succeeds m.states m.calls
    × ((i : ℕ)
        → i < length modules
        → has i m.calls ≡ false
        → (m.states i ≡ failed)
          × (any_bad modules (λ k. is_failed (m.states k)) (dependencies modules i) ≡ true))
    × ((i : ℕ) → m.stacked i ≡ false)
    × Orderly modules m.calls
    × ((name : List ℕ)
        → module_is_loaded modules m name ≡ true
        → module_dependency_failed modules m name ≡ false)
module_load_all_lem_example = module_load_all_lem descriptors succeeds modules-Distinct
