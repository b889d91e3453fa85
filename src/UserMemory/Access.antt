-- ===== src/UserMemory/Access.antt =====
-- kernel/core/process/process.c: what the kernel reads and writes in the user memory of a process.
use nexus_os.Base.{
  ℕ, zero, suc, ◌+◌, ◌-◌, ◌%◌, ◌^◌, Bool, true, false, ◌||◌, not, Option, none, some, List, [],
  ◌++◌, ltb, leb, ◌==◌, if◌then◌else◌, length, take, drop,
}
use nexus_os.Process.{ProcessTable, is_zombie, process_get, process_at}
use nexus_os.UserMemory.{
  PagingServices, write_bytes, read_bytes, chunk_at, user_page_of, user_page_size, range_in_user,
  rounds_for, process_user_range_valid, page_writable, zeros,
}

module _ {W : Type 0} (k : PagingServices W) where
  -- The loop of process_user_write; a failure leaves what was written before.
  pub write_from : ℕ → ℕ → ℕ → List ℕ → ℕ → W → Bool × W
  write_from zero cr3 va bytes off w = (leb (length bytes) off, w)
  write_from (suc fuel) cr3 va bytes off w =
      let a = (va + off) % 2 ^ 64 in
      let phys = k.paging_virt_to_phys_in_cr3 cr3 a w in
      let chunk = chunk_at a (length bytes - off) in
      elim (ltb off (length bytes)) [
        | false ↦ (true, w)
        | true ↦ elim (phys == 0) [
          | true ↦ (false, w)
          | false ↦ write_from fuel cr3 va bytes (off + chunk) (
              write_bytes k (user_page_of phys + a % user_page_size) (take chunk (drop off bytes))
                w)
        ]
      ]

  -- The bytes read; none is the return of 0, after which no caller looks at the destination.
  pub read_from : ℕ → ℕ → ℕ → ℕ → ℕ → W → Option (List ℕ)
  read_from zero cr3 va size off w = if leb size off then some [] else none
  read_from (suc fuel) cr3 va size off w =
      let a = (va + off) % 2 ^ 64 in
      let phys = k.paging_virt_to_phys_in_cr3 cr3 a w in
      let chunk = chunk_at a (size - off) in
      elim (ltb off size) [
        | false ↦ some []
        | true ↦ elim (phys == 0) [
          | true ↦ none
          | false ↦ elim (read_from fuel cr3 va size (off + chunk) w) [
            | none ↦ none
            | some rest ↦
                some (read_bytes k chunk (user_page_of phys + a % user_page_size) w ++ rest)
          ]
        ]
      ]

  -- The pointer to the destination is not null.
  unfoldable pub process_user_read : ProcessTable → ℕ → ℕ → ℕ → W → Option (List ℕ)
  process_user_read t pid va size w = elim (process_get t pid) [
    | none ↦ none
    | some slot ↦
        let p = process_at t slot in
        if is_zombie p.state
          || not (range_in_user va size)
          || not (process_user_range_valid t pid va size 0)
        then none
        else read_from (rounds_for size) p.memory.address_space_cr3 va size 0 w
  ]

  -- The source is `bytes`, of the size of the range.
  unfoldable pub process_user_write : ProcessTable → ℕ → ℕ → List ℕ → W → Bool × W
  process_user_write t pid va bytes w = elim (process_get t pid) [
    | none ↦ (false, w)
    | some slot ↦
        let p = process_at t slot in
        if is_zombie p.state
          || not (range_in_user va (length bytes))
          || not (process_user_range_valid t pid va (length bytes) page_writable)
        then (false, w)
        else write_from (rounds_for (length bytes)) p.memory.address_space_cr3 va bytes 0 w
  ]

  -- process_user_copy checks neither the state nor the pages.
  pub process_user_copy : ProcessTable → ℕ → ℕ → List ℕ → W → Bool × W
  process_user_copy t pid va bytes w = elim (process_get t pid) [
    | none ↦ (false, w)
    | some slot ↦
        if not (range_in_user va (length bytes))
        then (false, w)
        else write_from (rounds_for (length bytes)) (process_at t slot).memory.address_space_cr3 va
            bytes 0 w
  ]

  abbrev pub process_user_zero : ProcessTable → ℕ → ℕ → ℕ → W → Bool × W
  process_user_zero t pid va size w = process_user_copy t pid va (zeros size) w
