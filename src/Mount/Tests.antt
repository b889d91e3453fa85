-- ===== src/Mount/Tests.antt =====
-- The table of two mounts, the second of them below the first.
use nexus_os.Base.{
  ℕ, zero, suc, ap, ◌≤◌, ◌<◌, ◌≡◌, ◌⊎◌, refl, true, false, none, some, List, [], ◌∷◌, arith, set,
  length, find_index,
}
use nexus_os.Base.Text.{codes, str_copy}
use nexus_os.Mount.{
  Mount, mount_at, new_mount, request, at_index, full, is_at, mount_is_unused, vfs_mount,
  vfs_mount_init, vfs_mount_resolve, no_mount,
}
use nexus_os.Mount.Resolve.{
  serves, target_length, vfs_mount_resolve_longest, vfs_mount_init-hides_root,
}
use nexus_os.Mount.Table.{Belongs, IsUnique, vfs_mount-IsUnique}

abbrev disks : List Mount
disks =
    new_mount (codes "sda1") (codes "/mnt") (codes "fat32") 0
    ∷ new_mount (codes "sda2") (codes "/mnt/usb") (codes "fat32") 1
    ∷ no_mount
    ∷ []

disks-IsUnique : IsUnique disks
unfolding IsUnique
disks-IsUnique zero zero ui uj e = refl
disks-IsUnique zero (suc zero) ui uj e = absurd (omega (arith, ap length e))
disks-IsUnique zero (suc (suc zero)) ui uj e = cc
disks-IsUnique zero (suc (suc (suc j))) ui uj e = cc
disks-IsUnique (suc zero) zero ui uj e = absurd (omega (arith, ap length e))
disks-IsUnique (suc zero) (suc zero) ui uj e = refl
disks-IsUnique (suc zero) (suc (suc zero)) ui uj e = cc
disks-IsUnique (suc zero) (suc (suc (suc j))) ui uj e = cc
disks-IsUnique (suc (suc zero)) j ui uj e = cc
disks-IsUnique (suc (suc (suc i))) j ui uj e = cc

vfs_mount_resolve_longest_example :
    ((i : ℕ) × (vfs_mount_resolve disks (some (codes "/mnt/usb/a")) 256
        ≡ some (i, str_copy (mount_at disks i).target 256))
      × (serves disks (codes "/mnt/usb/a") i ≡ true)
      × ((j : ℕ)
          → serves disks (codes "/mnt/usb/a") j ≡ true
          → target_length disks j ≤ target_length disks i))
    ⊎ ((vfs_mount_resolve disks (some (codes "/mnt/usb/a")) 256 ≡ none)
        × ((j : ℕ) → serves disks (codes "/mnt/usb/a") j ≡ false))
vfs_mount_resolve_longest_example =
    vfs_mount_resolve_longest disks (codes "/mnt/usb/a") 256 (omega arith)

vfs_mount_init-hides_root_example :
    ((mount_at vfs_mount_init 0).used ≡ true)
    × ((mount_at vfs_mount_init 0).target ≡ codes "/")
    × (vfs_mount_resolve vfs_mount_init (some (codes "/home")) 256 ≡ none)
vfs_mount_init-hides_root_example = vfs_mount_init-hides_root b'h' (codes "ome") 256 refl

vfs_mount-IsUnique_example :
    ((i : ℕ) × (i < 3)
      × Belongs disks (codes "/mnt") i
      × (vfs_mount disks (request (codes "sdb1") (codes "/mnt") (codes "ext2") 0)
          ≡ (at_index i, set disks i (new_mount (codes "sdb1") (codes "/mnt") (codes "ext2") 0)))
      × IsUnique (set disks i (new_mount (codes "sdb1") (codes "/mnt") (codes "ext2") 0)))
    ⊎ ((vfs_mount disks (request (codes "sdb1") (codes "/mnt") (codes "ext2") 0) ≡ (full, disks))
        × (find_index (is_at (codes "/mnt")) disks ≡ none)
        × (find_index mount_is_unused disks ≡ none))
vfs_mount-IsUnique_example =
    vfs_mount-IsUnique disks (codes "sdb1") (codes "/mnt") (codes "ext2") 0 disks-IsUnique
      (omega arith) (omega arith)
