-- ===== src/ProcessEnv/Tests.antt =====
-- A process with two variables.
use nexus_os.Base.{
  ℕ, ◌≡◌, ◌≢◌, refl, true, none, some, List, [], ◌∷◌, arith, length, replicate, find_index,
}
use nexus_os.Base.Text.{codes, str_eq}
use nexus_os.Process.{
  no_info, ProcessTable, max_channels, no_memory, process_at, process_get, ready,
}
use nexus_os.ProcessEnv.{
  process_set_env, process_unset_env, process_get_env, replace_value, set_entry, remove_entry,
  find_value, found, missing,
}
use nexus_os.ProcessEnv.Entries.{keys_fit}
use nexus_os.ProcessEnv.Lookup.{get_env-set_env, process_set_env-loses_long}

abbrev table : ProcessTable
table = record {
  processes =
      record {
        pid = 1;
        state = ready;
        ipc_handles = replicate max_channels 0;
        memory = no_memory;
        env =
            record { key = codes "HOME"; value = codes "/" }
            ∷ record { key = codes "PATH"; value = codes "/bin" }
            ∷ [];
        info = no_info;
      }
      ∷ [];
  table_ready = true;
}

abbrev long_key : List ℕ
long_key = codes "THIS_KEY_HAS_24_LETTERS_"

finds_one : process_get table 1 ≡ some 0
unfolding process_get find_index
finds_one = refl

sets_path : (process_set_env table 1 (some (codes "PATH")) (some (codes "/usr"))).0 ≡ true
unfolding process_set_env process_get find_index set_entry replace_value str_eq
sets_path = refl

sets_long : (process_set_env table 1 (some long_key) none).0 ≡ true
unfolding process_set_env process_get find_index set_entry replace_value str_eq
sets_long = refl

-- The first of the variables is gone, the second stays.
unsets :
    process_get_env
      (process_unset_env table 1 (some (codes "HOME"))).1
      1
      (some (codes "PATH"))
      (some 4)
    ≡ found (codes "/bi")
unfolding process_unset_env process_get_env process_get find_index remove_entry find_value str_eq
unsets = refl

get_env-set_env_example :
    (process_get_env
        (process_set_env table 1 (some (codes "PATH")) (some (codes "/usr"))).1
        1
        (some (codes "PATH"))
        (some 64)
      ≡ found (codes "/usr"))
    × ((other : List ℕ)
        → other ≢ codes "PATH"
        → process_get_env
            (process_set_env table 1 (some (codes "PATH")) (some (codes "/usr"))).1
            1
            (some other)
            (some 64)
          ≡ process_get_env table 1 (some other) (some 64))
get_env-set_env_example =
    get_env-set_env table 1 0 (codes "PATH") (some (codes "/usr")) 64 finds_one sets_path
      (omega arith) (omega arith)

process_set_env-loses_long_example :
    (process_get_env (process_set_env table 1 (some long_key) none).1 1 (some long_key) (some 64)
      ≡ missing)
    × (keys_fit (process_at (process_set_env table 1 (some long_key) none).1 0).env ≡ true)
    × (length (process_at (process_set_env table 1 (some long_key) none).1 0).env ≡ 3)
process_set_env-loses_long_example =
    process_set_env-loses_long table 1 0 long_key none 64 finds_one refl sets_long (omega arith)
      (omega arith)
