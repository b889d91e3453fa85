-- ===== src/UserMemory/Allocation.antt =====
-- kernel/core/process/process.c: the functions that map several pages of user memory.
use nexus_os.Base.{
  ℕ, zero, suc, ◌+◌, ◌-◌, ◌*◌, ◌/◌, ◌%◌, ◌^◌, Bool, true, false, ◌||◌, not, none, some, ltb, leb,
  ◌==◌, if◌then◌else◌, length,
}
use nexus_os.Process.{ProcessTable, UserMemory, is_zombie, process_get, process_at, put_process}
use nexus_os.UserMemory.{
  PagingServices, process_map_user_page, process_unmap_user_memory, process_unmap_user_range,
  user_page_size, page_writable, max_user_pages, user_limit, user_base,
}

module _ {W : Type 0} (k : PagingServices W) where
  -- Maps the pages from number `i` on; the number of the page that failed is the second component.
  pub map_pages : ℕ → ProcessTable → ℕ → ℕ → ℕ → ℕ → W → Bool × ℕ × ProcessTable × W
  map_pages zero t pid base flags i w = (true, i, t, w)
  map_pages (suc rounds) t pid base flags i w =
      let (ok, t1, w1) =
        process_map_user_page k t pid ((base + i * user_page_size) % 2 ^ 64) flags w in
      elim ok [ false ↦ (false, i, t1, w1) | true ↦ map_pages rounds t1 pid base flags (i + 1) w1 ]

  -- The fields of the memory that a function sets at its end.
  abbrev pub set_memory : ProcessTable → ℕ → (UserMemory → UserMemory) → ProcessTable
  set_memory t slot f =
      let p = process_at t slot in put_process t slot (record p { memory = f p.memory })

  pub process_map_user_memory : ProcessTable → ℕ → ℕ → ℕ → W → Bool × ProcessTable × W
  process_map_user_memory t pid base count w = elim (process_get t pid) [
    | none ↦ (false, t, w)
    | some slot ↦
        let p = process_at t slot in
        let (ok, i, t1, w1) = map_pages count t pid base page_writable 0 w in
        let (undone, t2, w2) = process_unmap_user_memory k t1 pid w1 in
        let room = (user_limit + 2 ^ 64 - base) % 2 ^ 64 / user_page_size in
        if count == 0
          || ltb max_user_pages count
          || ltb room count
          || not (base % user_page_size == 0)
        then (false, t, w)
        else if is_zombie p.state || not (length p.memory.pages == 0)
        then (false, t, w)
        else if not ok
        then (false, t2, w2)
        else (
          true,
          set_memory t1 slot (λ m. record m { page_base = base; pages_reserved = count }),
          w1,
        )
  ]

  -- 0 for a failure. Sums, products and differences are of 64 bits.
  pub process_alloc_user_range : ProcessTable → ℕ → ℕ → ℕ → W → ℕ × ProcessTable × W
  process_alloc_user_range t pid count flags w = elim (process_get t pid) [
    | none ↦ (0, t, w)
    | some slot ↦
        let m = (process_at t slot).memory in
        let base =
          if ltb m.heap_end user_base || leb user_limit m.heap_end
          then 0x10000000
          else m.heap_end in
        let bytes = count * user_page_size % 2 ^ 64 in
        let (ok, i, t1, w1) = map_pages count t pid base flags 0 w in
        let (undone, t2, w2) = process_unmap_user_range k t1 pid base (i * user_page_size) w1 in
        if is_zombie (process_at t slot).state
          || count == 0
          || ltb max_user_pages ((length m.pages + count) % 2 ^ 64)
        then (0, t, w)
        else if not (bytes / count == user_page_size)
            || ltb ((user_limit + 2 ^ 64 - bytes) % 2 ^ 64) base
        then (0, t, w)
        else if not ok
        then (0, t2, w2)
        else (base, set_memory t1 slot (λ m'. record m' { heap_end = base + bytes }), w1)
  ]
