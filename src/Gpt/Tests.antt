-- ===== src/Gpt/Tests.antt =====
-- A table of four entries, the first and the third in use.
use nexus_os.Base.{ℕ, ◌≡◌, refl, true, none, some, ltb, ◌||◌, ◌==◌, if◌then◌else◌, get_or, take}
use nexus_os.Base.Text.{codes}
use nexus_os.Gpt.{Disk, max_partitions, gpt_scan, le32, le64, little_endian}
use nexus_os.Gpt.Scan.{partitions_from, gpt_scan-takes}

abbrev header : ℕ → ℕ
header j =
    if ltb j 8
    then get_or (codes "EFI PART") j 0
    else if j == 12
    then 92
    else if j == 72
    then 2
    else if j == 80
    then 4
    else if j == 84
    then 128
    else 0

abbrev entries : ℕ → ℕ
entries j = if j == 0 || j == 256 then 7 else if j == 56 then b'A' else if j == 312 then b'B' else 0

abbrev disk : Disk
disk = record {
  ahci_is_ready = true;
  ahci_read_sectors =
      λ lba count. if lba == 1 then some header else if lba == 2 then some entries else none;
}

gpt_scan-takes_example :
    gpt_scan disk
    ≡ take max_partitions
        (partitions_from disk (le64 header 72) (le32 header 84) (le32 header 80) 0)
unfolding little_endian
gpt_scan-takes_example = gpt_scan-takes disk header refl refl refl refl
