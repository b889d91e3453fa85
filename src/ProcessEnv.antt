-- ===== src/ProcessEnv.antt =====
-- kernel/core/process/process.c: the environment of a process (process_set_env, process_unset_env,
-- process_get_env). local_copy and local_eq are str_copy and str_eq on C strings. A pointer that
-- may be NULL is an Option; each loop over the entries is a recursion on them.
mod Entries
pub mod Lookup
mod Tests
use nexus_os.Base.{
  ℕ, ◌-◌, Bool, true, false, Option, none, some, List, [], ◌∷◌, ◌++◌, ◌==◌, leb, ◌||◌,
  if◌then◌else◌, length,
}
use nexus_os.Base.Text.{str_eq, str_copy}
use nexus_os.Process.{EnvEntry, ProcessTable, is_zombie, process_at, process_get, put_process}

-- PROCESS_ENV_COUNT, PROCESS_ENV_KEY_LEN and PROCESS_ENV_VALUE_LEN
abbrev pub env_count_max : ℕ
env_count_max = 8

abbrev pub env_key_len : ℕ
env_key_len = 24

abbrev pub env_value_len : ℕ
env_value_len = 64

-- value ? value : ""
abbrev pub value_text : Option (List ℕ) → List ℕ
value_text none = []
value_text (some v) = v

abbrev pub is_empty : List ℕ → Bool
is_empty [] = true
is_empty (c ∷ cs) = false

-- The entries after an entry, when the loop has found one of them.
abbrev pub keep : EnvEntry → Option (List EnvEntry) → Option (List EnvEntry)
keep e none = none
keep e (some env) = some (e ∷ env)

-- The first loop of process_set_env, in the case that it returns.
unfoldable pub replace_value : List ℕ → List ℕ → List EnvEntry → Option (List EnvEntry)
replace_value key value [] = none
replace_value key value (e ∷ env) =
    if str_eq e.key key
    then some (record e { value = str_copy value env_value_len } ∷ env)
    else keep e (replace_value key value env)

abbrev pub new_entry : List ℕ → List ℕ → EnvEntry
new_entry key value = record {
  key = str_copy key env_key_len;
  value = str_copy value env_value_len;
}

-- A new entry behind the others, while there is room.
abbrev pub add_variable : List ℕ → List ℕ → List EnvEntry → Option (List EnvEntry)
add_variable key value env =
    if leb env_count_max (length env) then none else some (env ++ new_entry key value ∷ [])

unfoldable pub set_entry : List ℕ → List ℕ → List EnvEntry → Option (List EnvEntry)
set_entry key value env = elim (replace_value key value env) [
  | some changed ↦ some changed
  | none ↦ add_variable key value env
]

abbrev pub put_env : ProcessTable → ℕ → Option (List EnvEntry) → Bool × ProcessTable
put_env t slot none = (false, t)
put_env t slot (some env) = (true, put_process t slot (record (process_at t slot) { env = env }))

-- The result and the table afterwards.
unfoldable pub process_set_env :
    ProcessTable → ℕ → Option (List ℕ) → Option (List ℕ) → Bool × ProcessTable
process_set_env t pid none value = (false, t)
process_set_env t pid (some key) value = elim (process_get t pid) [
  | none ↦ (false, t)
  | some slot ↦
      if is_zombie (process_at t slot).state || is_empty key
      then (false, t)
      else put_env t slot (set_entry key (value_text value) (process_at t slot).env)
]

-- The loops of process_unset_env: the later entries move down by one.
unfoldable pub remove_entry : List ℕ → List EnvEntry → Option (List EnvEntry)
remove_entry key [] = none
remove_entry key (e ∷ env) = if str_eq e.key key then some env else keep e (remove_entry key env)

unfoldable pub process_unset_env : ProcessTable → ℕ → Option (List ℕ) → Bool × ProcessTable
process_unset_env t pid none = (false, t)
process_unset_env t pid (some key) = elim (process_get t pid) [
  | none ↦ (false, t)
  | some slot ↦ put_env t slot (remove_entry key (process_at t slot).env)
]

-- The loop of process_get_env.
unfoldable pub find_value : List ℕ → List EnvEntry → Option (List ℕ)
find_value key [] = none
find_value key (e ∷ env) = if str_eq e.key key then some e.value else find_value key env

-- process_get_env: 0 with nothing written, 0 with an empty string written, or 1 with the text.
pub data EnvRead : Type 0 where
  refused : EnvRead
  missing : EnvRead
  found : List ℕ → EnvRead

abbrev pub read_result : ℕ → Option (List ℕ) → EnvRead
read_result size none = missing
read_result size (some value) = found (str_copy value size)

-- `size` is the size of the caller's buffer, none for NULL.
unfoldable pub process_get_env : ProcessTable → ℕ → Option (List ℕ) → Option ℕ → EnvRead
process_get_env t pid none size = refused
process_get_env t pid (some key) none = refused
process_get_env t pid (some key) (some size) = elim (process_get t pid) [
  | none ↦ refused
  | some slot ↦
      if size == 0 then refused else read_result size (find_value key (process_at t slot).env)
]
