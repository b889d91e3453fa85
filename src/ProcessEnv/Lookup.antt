-- ===== src/ProcessEnv/Lookup.antt =====
-- kernel/core/process/process.c: what process_get_env reads after process_set_env.
use nexus_os.Base.{
  ℕ, ◌≤◌, ◌<◌, ◌≡◌, ◌≢◌, inl, inr, refl, sym, ap, ◌∙◌, subst, true, ◌||◌, Option, none, some, suc,
  List, [], ◌∷◌, ◌++◌, length, length-take, arith, find_index-set, get_or-set_self, Bool-cases,
  length-append,
}
use nexus_os.Base.Text.{str_copy}
use nexus_os.Process.{
  EnvEntry, ProcessTable, is_zombie, no_process, owns_pid, process_at, process_get, put_process,
}
use nexus_os.Ipc.Handles.{process_get-some}
use nexus_os.ProcessEnv.Entries.{
  keys_fit, keys_fit-append, find-long, set_entry-find, set_entry-long,
}
use nexus_os.ProcessEnv.{
  env_key_len, env_value_len, find_value, process_get_env, process_set_env, put_env, read_result,
  found, missing, is_empty, new_entry, set_entry, value_text,
}

process_get-put_env :
    (t : ProcessTable) (slot pid : ℕ) (env : List EnvEntry)
    → process_get (put_process t slot (record (process_at t slot) { env = env })) pid
      ≡ process_get t pid
unfolding process_get
process_get-put_env t slot pid env = ground (
  arith,
  find_index-set (owns_pid pid) t.processes slot (record (process_at t slot) { env = env })
      no_process refl,
)

-- A call that succeeds stores the environment that set_entry gives.
record Sets (t : ProcessTable) (slot : ℕ) (key v : List ℕ) (after : ProcessTable) : Type 0 where
  changed : List EnvEntry
  stored : set_entry key v (process_at t slot).env ≡ some changed
  now : after ≡ put_process t slot (record (process_at t slot) { env = changed })

put_env-Sets :
    (t : ProcessTable) (slot : ℕ) (key v : List ℕ) (result : Option (List EnvEntry))
    → set_entry key v (process_at t slot).env ≡ result
    → (put_env t slot result).0 ≡ true
    → Sets t slot key v (put_env t slot result).1
put_env-Sets t slot key v none e ok = absurd (ground (arith, ok))
put_env-Sets t slot key v (some env) e ok = record { changed = env; stored = e; now = refl }

process_set_env-Sets :
    (t : ProcessTable) (pid slot : ℕ) (key : List ℕ) (value : Option (List ℕ))
    → process_get t pid ≡ some slot
    → (process_set_env t pid (some key) value).0 ≡ true
    → Sets t slot key (value_text value) (process_set_env t pid (some key) value).1
unfolding process_set_env
process_set_env-Sets t pid slot key value live ok =
    elim (Bool-cases (is_zombie (process_at t slot).state || is_empty key)) [
      | inl bad ↦ absurd (ground (arith, live, bad, ok))
      | inr fit ↦
          let result = set_entry key (value_text value) (process_at t slot).env in
          let here : process_set_env t pid (some key) value ≡ put_env t slot result =
            ground (arith, live, fit) in
          subst (λ r. Sets t slot key (value_text value) r.1) (sym here)
            (put_env-Sets t slot key (value_text value) result refl (ap (λ r. r.0) (sym here) ∙ ok))
    ]

-- What process_get_env reads of a process after such a store.
get_env-put_env :
    (t : ProcessTable) (pid slot : ℕ) (env : List EnvEntry) (key : List ℕ) (size : ℕ)
    → process_get t pid ≡ some slot
    → 0 < size
    → process_get_env
        (put_process t slot (record (process_at t slot) { env = env }))
        pid
        (some key)
        (some size)
      ≡ read_result size (find_value key env)
unfolding process_get_env
get_env-put_env t pid slot env key size live room =
    let at_slot =
      get_or-set_self t.processes slot (record (process_at t slot) { env = env }) no_process
        (process_get-some t pid slot live).0 in
    ground (arith, live, process_get-put_env t slot pid env, at_slot)

get_env-at :
    (t : ProcessTable) (pid slot : ℕ) (key : List ℕ) (size : ℕ)
    → process_get t pid ≡ some slot
    → 0 < size
    → process_get_env t pid (some key) (some size)
      ≡ read_result size (find_value key (process_at t slot).env)
unfolding process_get_env
get_env-at t pid slot key size live room = ground (arith, live)

-- When process_set_env accepts a key of less than 24 characters for a process in the table,
-- process_get_env with that key then reads the first 63 characters of the value, as far as they fit
-- into the caller's buffer, and with every other key it reads what it read before.
pub get_env-set_env :
    (t : ProcessTable) (pid slot : ℕ) (key : List ℕ) (value : Option (List ℕ)) (size : ℕ)
    → process_get t pid ≡ some slot
    → (process_set_env t pid (some key) value).0 ≡ true
    → length key < env_key_len
    → 0 < size
    → (process_get_env (process_set_env t pid (some key) value).1 pid (some key) (some size)
        ≡ found (str_copy (str_copy (value_text value) env_value_len) size))
      × ((other : List ℕ)
          → other ≢ key
          → process_get_env (process_set_env t pid (some key) value).1 pid (some other) (some size)
            ≡ process_get_env t pid (some other) (some size))
get_env-set_env t pid slot key value size live ok short room =
    let done = process_set_env-Sets t pid slot key value live ok in
    let at_key =
      set_entry-find key (value_text value) (process_at t slot).env done.changed short
        done.stored in
    let reads : (k : List ℕ)
        → process_get_env (process_set_env t pid (some key) value).1 pid (some k) (some size)
          ≡ read_result size (find_value k done.changed) =
      λ k.
        ap (λ u. process_get_env u pid (some k) (some size)) done.now
        ∙ get_env-put_env t pid slot done.changed k size live room in
    (
      reads key ∙ ap (read_result size) at_key.0,
      λ other apart.
          reads other
          ∙ ap (read_result size) (at_key.1 other apart)
          ∙ sym (get_env-at t pid slot other size live room),
    )

-- When process_set_env accepts a key of 24 characters or more for a process in the table whose
-- stored keys fit their arrays, the environment has one entry more, the keys still fit, and
-- process_get_env with the same key finds nothing.
pub process_set_env-loses_long :
    (t : ProcessTable) (pid slot : ℕ) (key : List ℕ) (value : Option (List ℕ)) (size : ℕ)
    → process_get t pid ≡ some slot
    → keys_fit (process_at t slot).env ≡ true
    → (process_set_env t pid (some key) value).0 ≡ true
    → env_key_len ≤ length key
    → 0 < size
    → (process_get_env (process_set_env t pid (some key) value).1 pid (some key) (some size)
        ≡ missing)
      × (keys_fit (process_at (process_set_env t pid (some key) value).1 slot).env ≡ true)
      × (length (process_at (process_set_env t pid (some key) value).1 slot).env
          ≡ suc (length (process_at t slot).env))
process_set_env-loses_long t pid slot key value size live fit ok long room =
    let done = process_set_env-Sets t pid slot key value live ok in
    let env = (process_at t slot).env in
    let added = new_entry key (value_text value) in
    let grown : done.changed ≡ env ++ added ∷ [] =
      set_entry-long key (value_text value) env done.changed fit long done.stored in
    let still : keys_fit (env ++ added ∷ []) ≡ true =
      keys_fit-append env added fit (omega (arith, length-take 23 key)) in
    let now_at : (process_at (process_set_env t pid (some key) value).1 slot).env
        ≡ env ++ added ∷ [] =
      ap (λ u. (process_at u slot).env) done.now
      ∙ ap (λ p. p.env)
          (get_or-set_self t.processes slot (record (process_at t slot) { env = done.changed })
            no_process (process_get-some t pid slot live).0)
      ∙ grown in
    (
      ap (λ u. process_get_env u pid (some key) (some size)) done.now
          ∙ get_env-put_env t pid slot done.changed key size live room
          ∙ ap (read_result size)
              (ap (find_value key) grown ∙ find-long key (env ++ added ∷ []) still long),
      ap keys_fit now_at ∙ still,
      ap length now_at ∙ length-append env (added ∷ []) ∙ omega arith,
    )
