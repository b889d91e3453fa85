-- ===== src/Mount/Table.antt =====
-- The mount table as a map from targets to mounts.
use nexus_os.Base.{
  ℕ, zero, suc, ◌<◌, ◌≡◌, ◌≢◌, sym, ap, ◌∙◌, ◌⊎◌, inl, inr, true, false, none, some, List, [], ◌∷◌,
  ◌==◌, if◌then◌else◌, length, get_or-set_self, get_or-set_ne, find_index, find_index-some,
  find_index-none, set, arith, Bool-cases, Option-cases,
}
use nexus_os.Base.Text.{str_eq, str_copy, str_eq_refl, str_eq_sound, take_all}
use nexus_os.Mount.{
  Mount, no_mount, mount_at, request, at_index, full, is_at, mount_is_unused, new_mount, place,
  vfs_mount, path_max, fstype_max,
}

-- No two mounts in use have the same target.
unfoldable pub IsUnique : List Mount → Type 0
IsUnique ms =
    (i j : ℕ)
    → (mount_at ms i).used ≡ true
    → (mount_at ms j).used ≡ true
    → (mount_at ms i).target ≡ (mount_at ms j).target
    → i ≡ j

mount_at-set :
    (ms : List Mount) (i j : ℕ) (m : Mount)
    → i < length ms
    → mount_at (set ms i m) j ≡ (if i == j then m else mount_at ms j)
mount_at-set ms i j m h = elim (Bool-cases (i == j)) [
  | inl e ↦
      ap (λ k. mount_at (set ms i m) k) {x = j} {y = i} (ground (arith, e))
      ∙ get_or-set_self ms i m no_mount h
      ∙ ap (λ b. if b then m else mount_at ms j) (sym e)
  | inr e ↦
      get_or-set_ne ms i j m no_mount (ground (arith, e))
      ∙ ap (λ b. if b then m else mount_at ms j) (sym e)
]

used_in_table : (ms : List Mount) (j : ℕ) → (mount_at ms j).used ≡ true → j < length ms
used_in_table [] j h = cc
used_in_table (m ∷ ms) zero h = omega arith
used_in_table (m ∷ ms) (suc j) h = omega (arith, used_in_table ms j h)

-- An entry that no other mount in use has the target of.
set-IsUnique :
    (ms : List Mount) (i : ℕ) (m : Mount)
    → IsUnique ms
    → i < length ms
    → ((j : ℕ) → j ≢ i → (mount_at ms j).used ≡ true → (mount_at ms j).target ≢ m.target)
    → IsUnique (set ms i m)
unfolding IsUnique
set-IsUnique ms i m v h apart j k uj uk same = elim (Bool-cases (i == j)) [
  | inl ij ↦ elim (Bool-cases (i == k)) [
    | inl ik ↦ ground (arith, ij, ik)
    | inr nk ↦
        let at_j = mount_at-set ms i j m h ∙ ap (λ b. if b then m else mount_at ms j) ij in
        let at_k = mount_at-set ms i k m h ∙ ap (λ b. if b then m else mount_at ms k) nk in
        absurd (
          apart k (ground (arith, nk)) (sym (ap (λ n. n.used) at_k) ∙ uk)
            (sym (ap (λ n. n.target) at_k) ∙ sym same ∙ ap (λ n. n.target) at_j))
  ]
  | inr nj ↦
      let at_j = mount_at-set ms i j m h ∙ ap (λ b. if b then m else mount_at ms j) nj in
      elim (Bool-cases (i == k)) [
        | inl ik ↦
            let at_k = mount_at-set ms i k m h ∙ ap (λ b. if b then m else mount_at ms k) ik in
            absurd (
              apart j (ground (arith, nj)) (sym (ap (λ n. n.used) at_j) ∙ uj)
                (sym (ap (λ n. n.target) at_j) ∙ same ∙ ap (λ n. n.target) at_k))
        | inr nk ↦
            let at_k = mount_at-set ms i k m h ∙ ap (λ b. if b then m else mount_at ms k) nk in
            v j k (sym (ap (λ n. n.used) at_j) ∙ uj) (sym (ap (λ n. n.used) at_k) ∙ uk)
              (sym (ap (λ n. n.target) at_j) ∙ same ∙ ap (λ n. n.target) at_k)
      ]
]

-- Where a mount at a target belongs: in the used entry with that target or, if no used entry has
-- it, in a free one.
pub data Belongs (ms : List Mount) (target : List ℕ) (i : ℕ) : Type 0 where
  same_target : (mount_at ms i).used ≡ true → (mount_at ms i).target ≡ target → Belongs ms target i
  new_target :
      (mount_at ms i).used ≡ false
      → ((j : ℕ) → (mount_at ms j).used ≡ true → (mount_at ms j).target ≢ target)
      → Belongs ms target i

module _ (ms : List Mount) (source target fstype : List ℕ) (flags : ℕ) (v : IsUnique ms)
    (some_target : 0 < length target) (short : length target < path_max) where
  fresh : Mount
  fresh = new_mount source target fstype flags

  target_kept : str_copy target path_max ≡ target
  target_kept = take_all 255 target (omega arith)

  replaced :
      (i : ℕ)
      → find_index (is_at target) ms ≡ some i
      → (i < length ms)
        × Belongs ms target i
        × (place ms source target fstype flags ≡ (at_index i, set ms i fresh))
        × IsUnique (set ms i fresh)
  unfolding place fresh IsUnique
  replaced i found =
      let (in_table, here, before) = find_index-some (is_at target) ms no_mount i found in
      let same = str_eq_sound (mount_at ms i).target target (ground arith) in
      let used : (mount_at ms i).used ≡ true = ground arith in
      let entry : record (mount_at ms i) {
        source = str_copy source path_max;
        fstype = str_copy fstype fstype_max;
        flags = flags;
      }
          ≡ fresh =
        ground (arith, used, same, target_kept) in
      (
        in_table,
        same_target used same,
        rw (found, place) (ap (λ m. (at_index i, set ms i m)) entry),
        set-IsUnique ms i fresh v in_table
            (λ j ne uj e. ne (v j i uj used (e ∙ target_kept ∙ sym same))),
      )

  added :
      (i : ℕ)
      → find_index (is_at target) ms ≡ none
      → find_index mount_is_unused ms ≡ some i
      → (i < length ms)
        × Belongs ms target i
        × (place ms source target fstype flags ≡ (at_index i, set ms i fresh))
        × IsUnique (set ms i fresh)
  unfolding place fresh
  added i absent free =
      let (in_table, here, before) = find_index-some mount_is_unused ms no_mount i free in
      let not_at : (j : ℕ) → (mount_at ms j).used ≡ true → (mount_at ms j).target ≢ target =
        λ j uj e.
          let other = find_index-none (is_at target) ms no_mount j absent (used_in_table ms j uj) in
          ground (arith, other, uj, ap (λ t. str_eq t target) e, str_eq_refl target) in
      (
        in_table,
        new_target (ground (arith, here)) not_at,
        rw (absent, free, place),
        set-IsUnique ms i fresh v in_table (λ j ne uj e. not_at j uj (e ∙ target_kept)),
      )

  -- In a table with no two used mounts of the same target, a mount at a target that fits an entry
  -- replaces the used mount at that target or, if there is none, takes a free entry: that entry then
  -- holds the new mount, the others stay, and still no two mounts in use have the same target. If no
  -- entry is at the target and none is free, the result is the one for a full table and nothing
  -- changes.
  pub vfs_mount-IsUnique :
      ((i : ℕ) × (i < length ms)
        × Belongs ms target i
        × (vfs_mount ms (request source target fstype flags)
            ≡ (at_index i, set ms i (new_mount source target fstype flags)))
        × IsUnique (set ms i (new_mount source target fstype flags)))
      ⊎ ((vfs_mount ms (request source target fstype flags) ≡ (full, ms))
          × (find_index (is_at target) ms ≡ none)
          × (find_index mount_is_unused ms ≡ none))
  unfolding vfs_mount fresh place
  vfs_mount-IsUnique =
      let run : vfs_mount ms (request source target fstype flags)
          ≡ place ms source target fstype flags =
        ground arith in
      elim (Option-cases (find_index (is_at target) ms)) [
        | inr (i, found) ↦
            let (in_table, at, e, unique) = replaced i found in
            inl (i, in_table, at, run ∙ e, unique)
        | inl absent ↦ elim (Option-cases (find_index mount_is_unused ms)) [
          | inr (i, free) ↦
              let (in_table, at, e, unique) = added i absent free in
              inl (i, in_table, at, run ∙ e, unique)
          | inl none_free ↦ inr (run ∙ rw (absent, none_free, place), absent, none_free)
        ]
      ]
