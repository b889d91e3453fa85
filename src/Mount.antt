-- ===== src/Mount.antt =====
-- fs/vfs/mount/mount.c: the mount table, the 32 entries of `mounts`. A C string is the list of its
-- bytes. vfs_mount_list, which prints the table, is left out.
pub mod Table
pub mod Resolve
mod Tests
use nexus_os.Base.{
  ℕ, zero, suc, ◌+◌, ◌-◌, Bool, true, false, ◌&&◌, ◌||◌, not, Option, none, some, List, [], ◌∷◌,
  ltb, ◌==◌, if◌then◌else◌, length, get_or, get_elem?, set, find_index, replicate,
}
use nexus_os.Base.Text.{codes, str_eq, str_copy}

-- VFS_MOUNT_MAX, VFS_PATH_MAX, VFS_FSTYPE_MAX and VFS_MOUNT_NODEV
abbrev pub mount_max : ℕ
mount_max = 32

abbrev pub path_max : ℕ
path_max = 256

abbrev pub fstype_max : ℕ
fstype_max = 16

abbrev pub mount_nodev : ℕ
mount_nodev = 2

-- `vfs_mount_t`
pub record Mount : Type 0 where
  pub used : Bool
  pub source : List ℕ
  pub target : List ℕ
  pub fstype : List ℕ
  pub flags : ℕ

abbrev pub no_mount : Mount
no_mount = record { used = false; source = []; target = []; fstype = []; flags = 0 }

-- The arguments of vfs_mount; a null pointer is none.
pub record Request : Type 0 where
  pub source : Option (List ℕ)
  pub target : Option (List ℕ)
  pub fstype : Option (List ℕ)
  pub flags : ℕ

-- What a call returns: an index, or -1, or -2.
pub data Result : Type 0 where
  at_index : (i : ℕ) → Result
  invalid full : Result

abbrev pub is_at : List ℕ → Mount → Bool
is_at target m = m.used && str_eq m.target target

abbrev pub mount_is_unused : Mount → Bool
mount_is_unused m = not m.used

abbrev pub mount_at : List Mount → ℕ → Mount
mount_at ms i = get_or ms i no_mount

-- The entry that a mount at a new target gets.
abbrev pub new_mount : List ℕ → List ℕ → List ℕ → ℕ → Mount
new_mount source target fstype flags = record {
  used = true;
  source = str_copy source path_max;
  target = str_copy target path_max;
  fstype = str_copy fstype fstype_max;
  flags = flags;
}

-- The two loops of vfs_mount.
pub place : List Mount → List ℕ → List ℕ → List ℕ → ℕ → Result × List Mount
place ms source target fstype flags = elim (find_index (is_at target) ms) [
  | some i ↦ (
    at_index i,
    set ms i (record (mount_at ms i) {
      source = str_copy source path_max;
      fstype = str_copy fstype fstype_max;
      flags = flags;
    }),
  )
  | none ↦ elim (find_index mount_is_unused ms) [
    | some i ↦ (at_index i, set ms i (new_mount source target fstype flags))
    | none ↦ (full, ms)
  ]
]

pub vfs_mount : List Mount → Request → Result × List Mount
vfs_mount ms r = elim r.source [
  | none ↦ (invalid, ms)
  | some source ↦ elim r.target [
    | none ↦ (invalid, ms)
    | some target ↦ elim r.fstype [
      | none ↦ (invalid, ms)
      | some fstype ↦
          let placed = place ms source target fstype r.flags in
          if length target == 0 then (invalid, ms) else placed
    ]
  ]
]

-- -2 is `full` here: the root stays mounted.
pub vfs_umount : List Mount → Option (List ℕ) → Result × List Mount
vfs_umount ms none = (invalid, ms)
vfs_umount ms (some target) =
    if str_eq target (b'/' ∷ []) then (full, ms) else elim (find_index (is_at target) ms) [
      | none ↦ (invalid, ms)
      | some i ↦ (at_index 0, set ms i (record (mount_at ms i) { used = false }))
    ]

pub vfs_mount_get : List Mount → ℕ → Option Mount
vfs_mount_get ms i = if ltb i mount_max && (mount_at ms i).used then some (mount_at ms i) else none

pub vfs_mount_count : List Mount → ℕ
vfs_mount_count [] = 0
vfs_mount_count (m ∷ ms) = (if m.used then 1 else 0) + vfs_mount_count ms

-- The inner loop of vfs_mount_resolve and its test of path[len]: the target is a prefix of the
-- path, and the path ends there or goes on with a slash.
unfoldable pub covers : List ℕ → List ℕ → Bool
covers [] [] = true
covers (c ∷ path) [] = c == b'/'
covers [] (t ∷ target) = false
covers (c ∷ path) (t ∷ target) = c == t && covers path target

-- `best` and `best_len`; none for -1.
abbrev pub is_longer : ℕ → Option (ℕ × ℕ) → Bool
is_longer len none = true
is_longer len (some (best, best_len)) = ltb best_len len

-- One round of the outer loop.
abbrev pub consider : List ℕ → ℕ → Mount → Option (ℕ × ℕ) → Option (ℕ × ℕ)
consider path i m best =
    if m.used && covers path m.target && is_longer (length m.target) best
    then some (i, length m.target)
    else best

pub resolve_from : List Mount → ℕ → List ℕ → Option (ℕ × ℕ) → Option (ℕ × ℕ)
resolve_from [] i path best = best
resolve_from (m ∷ ms) i path best = resolve_from ms (i + 1) path (consider path i m best)

-- The index and the text written to mountpoint_out; none for -1.
pub vfs_mount_resolve : List Mount → Option (List ℕ) → ℕ → Option (ℕ × List ℕ)
vfs_mount_resolve ms none out_size = none
vfs_mount_resolve ms (some path) out_size =
    if out_size == 0 then none else elim (resolve_from ms 0 path none) [
      | none ↦ none
      | some (best, len) ↦ some (best, str_copy (mount_at ms best).target out_size)
    ]

abbrev pub request : List ℕ → List ℕ → List ℕ → ℕ → Request
request source target fstype flags = record {
  source = some source;
  target = some target;
  fstype = some fstype;
  flags = flags;
}

-- The table after the requests, in order.
pub mount_all : List Mount → List Request → List Mount
mount_all ms [] = ms
mount_all ms (r ∷ rs) = mount_all (vfs_mount ms r).1 rs

abbrev pub standard_mounts : List Request
standard_mounts =
    request (codes "rootfs") (codes "/") (codes "nexusfs") 0
    ∷ request (codes "devfs") (codes "/dev") (codes "devfs") 0
    ∷ request (codes "procfs") (codes "/proc") (codes "procfs") mount_nodev
    ∷ request (codes "sysfs") (codes "/sys") (codes "sysfs") mount_nodev
    ∷ request (codes "tmpfs") (codes "/tmp") (codes "tmpfs") 0
    ∷ []

pub vfs_mount_init : List Mount
vfs_mount_init = mount_all (replicate mount_max no_mount) standard_mounts
