-- ===== src/ProcessEnv/Entries.antt =====
-- kernel/core/process/process.c: the entries of an environment after a store.
use nexus_os.Base.{
  ℕ, ◌≤◌, ◌<◌, ◌≡◌, ◌≢◌, ◌⊎◌, inl, inr, refl, sym, ap, ◌∙◌, subst, Bool, true, false, Option, none,
  some, List, [], ◌∷◌, ◌++◌, length, arith, ltb, ◌&&◌,
}
use nexus_os.Base.Text.{str_eq, str_eq_refl, str_eq_sound, str_copy, take_all}
use nexus_os.Process.{EnvEntry}
use nexus_os.ProcessEnv.{
  env_key_len, env_value_len, find_value, new_entry, replace_value, set_entry,
}

-- A string equals no other one.
str_eq_ne : (a b : List ℕ) → a ≢ b → str_eq a b ≡ false
str_eq_ne a b apart = ground (arith, apart, str_eq_sound a b)

find-replace_self :
    (key v : List ℕ) (env changed : List EnvEntry)
    → replace_value key v env ≡ some changed
    → find_value key changed ≡ some (str_copy v env_value_len)
unfolding replace_value find_value
find-replace_self key v [] changed e = cc
find-replace_self key v (x ∷ env) changed e = grind (arith, find-replace_self key v env)

find-replace_other :
    (key other v : List ℕ) (env changed : List EnvEntry)
    → other ≢ key
    → replace_value key v env ≡ some changed
    → find_value other changed ≡ find_value other env
unfolding replace_value find_value
find-replace_other key other v [] changed apart e = cc
find-replace_other key other v (x ∷ env) changed apart e = grind (
  arith,
  str_eq_ne key other (λ e. apart (sym e)),
  str_eq_sound x.key key,
  λ (rest : List EnvEntry). find-replace_other key other v env rest apart,
)

find-replace_none :
    (key v : List ℕ) (env : List EnvEntry)
    → replace_value key v env ≡ none
    → find_value key env ≡ none
unfolding replace_value find_value
find-replace_none key v [] e = refl
find-replace_none key v (x ∷ env) e = ground (arith, find-replace_none key v env)

find-append_new :
    (key : List ℕ) (env : List EnvEntry) (x : EnvEntry)
    → find_value key env ≡ none
    → find_value key (env ++ x ∷ []) ≡ find_value key (x ∷ [])
unfolding find_value
find-append_new key [] x e = refl
find-append_new key (y ∷ env) x e = ground (arith, find-append_new key env x)

find-append_other :
    (key : List ℕ) (env : List EnvEntry) (x : EnvEntry)
    → str_eq x.key key ≡ false
    → find_value key (env ++ x ∷ []) ≡ find_value key env
unfolding find_value
find-append_other key [] x e = ground arith
find-append_other key (y ∷ env) x e = ground (arith, find-append_other key env x)

find-new :
    (key v : List ℕ)
    → str_copy key env_key_len ≡ key
    → find_value key (new_entry key v ∷ []) ≡ some (str_copy v env_value_len)
unfolding find_value
find-new key v stored = ground (arith, str_eq_refl key, stored)

option_cases {ℓ} : {A : Type ℓ} (o : Option A) → ((a : A) × (o ≡ some a)) ⊎ (o ≡ none)
option_cases none = inr refl
option_cases (some a) = inl (a, refl)

-- Setting a key that fits gives it the new value and leaves the other keys.
pub set_entry-find :
    (key v : List ℕ) (env changed : List EnvEntry)
    → length key < env_key_len
    → set_entry key v env ≡ some changed
    → (find_value key changed ≡ some (str_copy v env_value_len))
      × ((other : List ℕ) → other ≢ key → find_value other changed ≡ find_value other env)
unfolding set_entry
set_entry-find key v env changed short e = elim (option_cases (replace_value key v env)) [
  | inl (next, r) ↦
      let same : next ≡ changed = ground (arith, r, e) in
      (
        subst (λ c. find_value key c ≡ some (str_copy v env_value_len)) same
            (find-replace_self key v env next r),
        λ other apart.
            subst (λ c. find_value other c ≡ find_value other env) same
              (find-replace_other key other v env next apart r),
      )
  | inr r ↦
      let appended : env ++ new_entry key v ∷ [] ≡ changed = ground (arith, r, e) in
      let stored : str_copy key env_key_len ≡ key = take_all 23 key (omega (arith, short)) in
      (
        subst (λ c. find_value key c ≡ some (str_copy v env_value_len)) appended
            (find-append_new key env (new_entry key v) (find-replace_none key v env r)
              ∙ find-new key v stored),
        λ other apart.
            subst (λ c. find_value other c ≡ find_value other env) appended
              (find-append_other other env (new_entry key v)
                (str_eq_ne (str_copy key env_key_len) other (λ h. apart (sym h ∙ stored)))),
      )
]

-- Every key fits its array, as those that process_set_env stores do.
abbrev pub keys_fit : List EnvEntry → Bool
keys_fit [] = true
keys_fit (x ∷ env) = ltb (length x.key) env_key_len && keys_fit env

pub keys_fit-append :
    (env : List EnvEntry) (x : EnvEntry)
    → keys_fit env ≡ true
    → length x.key < env_key_len
    → keys_fit (env ++ x ∷ []) ≡ true
keys_fit-append [] x e short = ground arith
keys_fit-append (y ∷ env) x e short = ground (arith, keys_fit-append env x)

longer_ne :
    (a key : List ℕ) → length a < env_key_len → env_key_len ≤ length key → str_eq a key ≡ false
longer_ne a key short long = str_eq_ne a key (λ h. absurd (omega (arith, short, long, ap length h)))

pub find-long :
    (key : List ℕ) (env : List EnvEntry)
    → keys_fit env ≡ true
    → env_key_len ≤ length key
    → find_value key env ≡ none
unfolding find_value
find-long key [] e long = refl
find-long key (x ∷ env) e long = ground (arith, longer_ne x.key key, find-long key env)

replace-long :
    (key v : List ℕ) (env : List EnvEntry)
    → keys_fit env ≡ true
    → env_key_len ≤ length key
    → replace_value key v env ≡ none
unfolding replace_value
replace-long key v [] e long = refl
replace-long key v (x ∷ env) e long = ground (arith, longer_ne x.key key, replace-long key v env)

pub set_entry-long :
    (key v : List ℕ) (env changed : List EnvEntry)
    → keys_fit env ≡ true
    → env_key_len ≤ length key
    → set_entry key v env ≡ some changed
    → changed ≡ env ++ new_entry key v ∷ []
unfolding set_entry
set_entry-long key v env changed fit long e = ground (arith, replace-long key v env fit long, e)
