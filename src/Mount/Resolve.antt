-- ===== src/Mount/Resolve.antt =====
-- vfs_mount_resolve finds the longest target that covers the path.
use nexus_os.Base.{
  ℕ, zero, suc, ◌+◌, ◌≤◌, ◌<◌, ◌≡◌, refl, ap, ◌∙◌, ◌⊎◌, inl, inr, Bool, true, false, ◌&&◌, ◌||◌,
  Option, none, some, List, [], ◌∷◌, leb, ◌==◌, length, replicate, find_index, arith, Bool-cases,
}
use nexus_os.Base.Text.{codes, str_eq, str_copy}
use nexus_os.Mount.{
  Mount, no_mount, mount_at, covers, is_longer, consider, resolve_from, vfs_mount_resolve,
  vfs_mount_init, vfs_mount, place, mount_all,
}

-- The mount is in the table and covers the path.
abbrev pub serves : List Mount → List ℕ → ℕ → Bool
serves ms path i = (mount_at ms i).used && covers path (mount_at ms i).target

abbrev pub target_length : List Mount → ℕ → ℕ
target_length ms i = length (mount_at ms i).target

-- The result is a mount with a target of at least that length.
abbrev at_least : ℕ → Option (ℕ × ℕ) → Bool
at_least len none = false
at_least len (some (best, best_len)) = leb len best_len

keeps_best :
    (ms : List Mount) (i : ℕ) (path : List ℕ) (best : Option (ℕ × ℕ)) (len : ℕ)
    → at_least len best ≡ true
    → at_least len (resolve_from ms i path best) ≡ true
unfolding resolve_from
keeps_best [] i path best len h = h
keeps_best (m ∷ ms) i path none len h = cc
keeps_best (m ∷ ms) i path (some (b, l)) len h =
    keeps_best ms (i + 1) path (consider path i m (some (b, l))) len (ground arith)

considered :
    (path : List ℕ) (i : ℕ) (m : Mount) (best : Option (ℕ × ℕ))
    → (m.used && covers path m.target) ≡ true
    → at_least (length m.target) (consider path i m best) ≡ true
considered path i m none h = ground arith
considered path i m (some (b, l)) h = ground arith

-- No mount that serves the path has a longer target than the result.
reaches_all :
    (ms : List Mount) (i : ℕ) (path : List ℕ) (best : Option (ℕ × ℕ)) (j : ℕ)
    → serves ms path j ≡ true
    → at_least (target_length ms j) (resolve_from ms i path best) ≡ true
unfolding resolve_from
reaches_all [] i path best j h = cc
reaches_all (m ∷ ms) i path best zero h =
    keeps_best ms (i + 1) path (consider path i m best) (length m.target)
      (considered path i m best h)
reaches_all (m ∷ ms) i path best (suc j) h =
    reaches_all ms (i + 1) path (consider path i m best) j h

-- Where the result comes from.
comes_from :
    (ms : List Mount) (i : ℕ) (path : List ℕ) (best : Option (ℕ × ℕ))
    → (resolve_from ms i path best ≡ best)
      ⊎ ((k : ℕ) × (serves ms path k ≡ true)
          × (resolve_from ms i path best ≡ some (i + k, target_length ms k)))
unfolding resolve_from
comes_from [] i path best = inl refl
comes_from (m ∷ ms) i path best = elim (comes_from ms (i + 1) path (consider path i m best)) [
  | inr (k, served, e) ↦
      inr (suc k, served, e ∙ ap (λ n. some (n, target_length ms k)) (omega arith))
  | inl e ↦ elim (Bool-cases (m.used && covers path m.target && is_longer (length m.target) best)) [
    | inl taken ↦ inr (0, ground arith, e ∙ ground (arith, taken))
    | inr passed ↦ inl (e ∙ ground (arith, passed))
  ]
]

-- A path that a mount covers resolves to a mount that covers it and whose target is the longest of
-- those that do; any other path is refused.
pub vfs_mount_resolve_longest :
    (ms : List Mount) (path : List ℕ) (out_size : ℕ)
    → 0 < out_size
    → ((i : ℕ) × (vfs_mount_resolve ms (some path) out_size
          ≡ some (i, str_copy (mount_at ms i).target out_size))
        × (serves ms path i ≡ true)
        × ((j : ℕ) → serves ms path j ≡ true → target_length ms j ≤ target_length ms i))
      ⊎ ((vfs_mount_resolve ms (some path) out_size ≡ none) × ((j : ℕ) → serves ms path j ≡ false))
unfolding vfs_mount_resolve
vfs_mount_resolve_longest ms path out_size room = elim (comes_from ms 0 path none) [
  | inl e ↦ inr (
    ground (arith, e),
    λ j. elim (Bool-cases (serves ms path j)) [
      | inl served ↦ absurd (ground (arith, reaches_all ms 0 path none j served, e))
      | inr other ↦ other
    ],
  )
  | inr (k, served, e) ↦
      inl (k, ground (arith, e), served, λ j h. ground (arith, reaches_all ms 0 path none j h, e))
]

-- The table of vfs_mount_init.
abbrev entry : List ℕ → List ℕ → List ℕ → ℕ → Mount
entry source target fstype flags = record {
  used = true;
  source = source;
  target = target;
  fstype = fstype;
  flags = flags;
}

first_mounts :
    vfs_mount_init
    ≡ entry (codes "rootfs") (codes "/") (codes "nexusfs") 0
      ∷ entry (codes "devfs") (codes "/dev") (codes "devfs") 0
      ∷ entry (codes "procfs") (codes "/proc") (codes "procfs") 2
      ∷ entry (codes "sysfs") (codes "/sys") (codes "sysfs") 2
      ∷ entry (codes "tmpfs") (codes "/tmp") (codes "tmpfs") 0
      ∷ replicate 27 no_mount
unfolding vfs_mount_init mount_all vfs_mount place find_index str_eq
first_mounts = refl

unused_rest :
    (n i : ℕ) (path : List ℕ) (best : Option (ℕ × ℕ))
    → resolve_from (replicate n no_mount) i path best ≡ best
unfolding resolve_from
unused_rest zero i path best = refl
unused_rest (suc n) i path best = unused_rest n (i + 1) path best

nothing_covers :
    (c : ℕ) (rest : List ℕ)
    → (c == b'/' || c == b'd' || c == b'p' || c == b's' || c == b't') ≡ false
    → resolve_from vfs_mount_init 0 (b'/' ∷ c ∷ rest) none ≡ none
unfolding resolve_from covers
nothing_covers c rest other =
    ap (λ ms. resolve_from ms 0 (b'/' ∷ c ∷ rest) none) first_mounts
    ∙ ground (arith, other, unused_rest 27 5 (b'/' ∷ c ∷ rest) none)

-- After vfs_mount_init the root is mounted, yet a path below it whose second byte is none of `/`,
-- `d`, `p`, `s` and `t` resolves to no mount.
pub vfs_mount_init-hides_root :
    (c : ℕ) (rest : List ℕ) (out_size : ℕ)
    → (c == b'/' || c == b'd' || c == b'p' || c == b's' || c == b't') ≡ false
    → ((mount_at vfs_mount_init 0).used ≡ true)
      × ((mount_at vfs_mount_init 0).target ≡ b'/' ∷ [])
      × (vfs_mount_resolve vfs_mount_init (some (b'/' ∷ c ∷ rest)) out_size ≡ none)
unfolding vfs_mount_resolve
vfs_mount_init-hides_root c rest out_size other = (
  ap (λ ms. (mount_at ms 0).used) first_mounts,
  ap (λ ms. (mount_at ms 0).target) first_mounts,
  ground (arith, nothing_covers c rest other),
)
