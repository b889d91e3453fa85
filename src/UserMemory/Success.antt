-- ===== src/UserMemory/Success.antt =====
-- kernel/core/process/process.c: what a successful process_map_user_page has done.
use nexus_os.Base.{
  ℕ, ◌+◌, ◌%◌, ◌≡◌, ◌||◌, inl, inr, Bool, true, false, not, some, List, [], ◌∷◌, arith, Bool-cases,
  Option-cases, ◌==◌, ltb, leb, length, refl,
}
use nexus_os.Process.{put_process, ProcessTable, process_get, process_at, is_zombie}
use nexus_os.UserMemory.{
  PagingServices, process_unmap_user_memory, process_map_user_page, user_flags, user_base,
  user_limit, user_page_size, max_user_pages, page_flags, write_bytes, zeros,
}

module _ {W : Type 0} (k : PagingServices W) where
  -- What a write of a byte keeps, a write of several keeps.
  pub write_bytes_inv :
      {B : Type 0} (view : W → B)
      → ((phys v : ℕ) (w : W) → view (k.write_byte phys v w) ≡ view w)
      → (phys : ℕ) (bs : List ℕ) (w : W) → view (write_bytes k phys bs w) ≡ view w
  unfolding write_bytes
  write_bytes_inv view same phys [] w = refl
  write_bytes_inv view same phys (b ∷ bs) w =
      ground (arith, write_bytes_inv view same (phys + 1) bs (k.write_byte phys b w), same phys b w)

  module _ (t : ProcessTable) (pid slot va flags : ℕ) (w : W)
      (live : process_get t pid ≡ some slot) where
    abbrev pub attempt : Bool × W
    attempt =
        k.paging_map_page_in_cr3 (process_at t slot).memory.address_space_cr3 va
          (k.pmm_alloc_page w).0 (user_flags flags) (k.pmm_alloc_page w).1

    -- It has a page address, the attempt to map has succeeded, and no more is done than to clear the
    -- page.
    pub map_user_page_success :
        (process_map_user_page k t pid va flags w).0 ≡ true
        → (va % user_page_size ≡ 0)
          × (attempt.0 ≡ true)
          × ((process_map_user_page k t pid va flags w).2
              ≡ write_bytes k (k.pmm_alloc_page w).0 (zeros user_page_size) attempt.1)
    unfolding process_map_user_page
    map_user_page_success done =
        let p = process_at t slot in
        elim (Bool-cases
          (not (va % user_page_size == 0) || ltb va user_base || leb user_limit va)) [
            | inl bad ↦ absurd (ground (arith, live, bad, done))
            | inr fit ↦
                elim (Bool-cases
                  (is_zombie p.state || leb max_user_pages (length p.memory.pages))) [
                    | inl bad ↦ absurd (ground (arith, live, fit, bad, done))
                    | inr room ↦ elim (Option-cases (page_flags p.memory.pages va)) [
                      | inr (f, old) ↦ absurd (ground (arith, live, fit, room, old, done))
                      | inl fresh ↦ elim (Bool-cases ((k.pmm_alloc_page w).0 == 0)) [
                        | inl null ↦ absurd (ground (arith, live, fit, room, fresh, null, done))
                        | inr page ↦ elim (Bool-cases attempt.0) [
                          | inr refused ↦
                              absurd (ground (arith, live, fit, room, fresh, page, refused, done))
                          | inl ok ↦ (
                            ground (arith, fit),
                            ok,
                            ground (arith, live, fit, room, fresh, page, ok),
                          )
                        ]
                      ]
                    ]
                  ]
          ]

-- process_unmap_user_memory changes the memory of the process only.
pub unmap_table :
    {W : Type 0} (k : PagingServices W) (t : ProcessTable) (pid slot : ℕ) (w : W)
    → process_get t pid ≡ some slot
    → (process_unmap_user_memory k t pid w).1
      ≡ put_process t slot (record (process_at t slot) {
        memory = record ((process_at t slot).memory) {
          pages = [];
          page_base = 0;
          pages_reserved = 0;
          has_memory = false;
        };
      })
unfolding process_unmap_user_memory
unmap_table k t pid slot w live = ground (arith, live)
