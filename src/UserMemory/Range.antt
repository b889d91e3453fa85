-- ===== src/UserMemory/Range.antt =====
-- process_user_range_valid accepts exactly the ranges whose bytes all lie on pages with the rights.
use nexus_os.Base.{
  ℕ, zero, suc, ◌+◌, ◌-◌, ◌*◌, ◌/◌, ◌%◌, ◌^◌, ◌≤◌, ◌<◌, ◌≡◌, ◌↔◌, refl, sym, ap, ◌∙◌, Bool, true,
  false, ◌||◌, not, none, some, List, ltb, inl, inr, arith, Bool-cases, length,
}
use nexus_os.Process.{ProcessTable, UserPage, is_zombie, process_get, process_at}
use nexus_os.UserMemory.{
  user_base, user_limit, user_page_size, is_nx, user_page_of, range_in_user, page_flags,
  page_allows, chunk_at, range_from, rounds_for, process_user_range_valid, PagingServices,
  page_writable,
}
use nexus_os.UserMemory.Access.{process_user_read, process_user_write}

-- The page of the byte has the rights.
abbrev pub byte_allowed : List UserPage → ℕ → ℕ → Bool
byte_allowed pages required a = page_allows pages required (user_page_of a)

-- The bytes up to the end of a page are on the same page.
same_page : (a left b : ℕ) → a ≤ b → b < a + chunk_at a left → user_page_of b ≡ user_page_of a
same_page a left b low high = ground (arith, low, high)

module _ (pages : List UserPage) (required va size : ℕ) (inside : va + size ≤ user_limit) where
  no_wrap : (off : ℕ) → off < size → (va + off) % 2 ^ 64 ≡ va + off
  no_wrap off low = omega arith

  range_done : (fuel off : ℕ) → size ≤ off → range_from fuel pages required va size off ≡ true
  unfolding range_from
  range_done zero off done = ground (arith, done)
  range_done (suc fuel) off done = ground (arith, done)

  range_bad :
      (fuel off : ℕ)
      → off < size
      → byte_allowed pages required (va + off) ≡ false
      → range_from (suc fuel) pages required va size off ≡ false
  unfolding range_from
  range_bad fuel off low bad =
      let more : ltb off size ≡ true = ground arith in
      rw (more, no_wrap off low, bad, range_from) refl

  range_good :
      (fuel off : ℕ)
      → off < size
      → byte_allowed pages required (va + off) ≡ true
      → range_from (suc fuel) pages required va size off
        ≡ range_from fuel pages required va size (off + chunk_at (va + off) (size - off))
  unfolding range_from
  range_good fuel off low good =
      let more : ltb off size ≡ true = ground arith in
      rw (more, no_wrap off low, good, range_from)
        (ap (λ a. range_from fuel pages required va size (off + chunk_at a (size - off)))
          (no_wrap off low))

  range_from_sound :
      (fuel off : ℕ)
      → range_from fuel pages required va size off ≡ true
      → (b : ℕ) → va + off ≤ b
      → b < va + size
      → byte_allowed pages required b ≡ true
  unfolding range_from
  range_from_sound zero off ok b low high = absurd (ground (arith, ok, low, high))
  range_from_sound (suc fuel) off ok b low high =
      let left : off < size = omega arith in
      let chunk = chunk_at (va + off) (size - off) in
      elim (Bool-cases (byte_allowed pages required (va + off))) [
        | inr bad ↦ absurd (ground (arith, ok, range_bad fuel off left bad))
        | inl good ↦ elim (Bool-cases (ltb b (va + off + chunk))) [
          | inl near ↦
              ap (page_allows pages required)
                (same_page (va + off) (size - off) b low (ground (arith, near)))
              ∙ good
          | inr far ↦
              range_from_sound fuel (off + chunk) (sym (range_good fuel off left good) ∙ ok) b
                (ground (arith, far)) high
        ]
      ]

  -- The fuel is enough.
  range_from_complete :
      (fuel off : ℕ)
      → ((b : ℕ) → va + off ≤ b → b < va + size → byte_allowed pages required b ≡ true)
      → size + (va + off) % user_page_size ≤ off + fuel * user_page_size
      → range_from fuel pages required va size off ≡ true
  range_from_complete zero off all enough = range_done zero off (omega arith)
  range_from_complete (suc fuel) off all enough = elim (Bool-cases (ltb off size)) [
    | inr done ↦ range_done (suc fuel) off (ground (arith, done))
    | inl more ↦
        let left : off < size = ground (arith, more) in
        let chunk = chunk_at (va + off) (size - off) in
        range_good fuel off left (all (va + off) (omega arith) (omega arith))
        ∙ elim (Bool-cases (ltb (size - off) (user_page_size - (va + off) % user_page_size))) [
          | inl last ↦ range_done fuel (off + chunk) (ground (arith, last, left))
          | inr full ↦
              range_from_complete fuel (off + chunk) (λ b low high. all b (omega arith) high)
                (ground (arith, full, enough, left))
        ]
  ]

-- Behind the user limit the difference of the first test wraps; the loop then stops at the page of
-- the first byte.
above_fails :
    (pages : List UserPage) (required va size : ℕ)
    → va < 2 ^ 64
    → 0 < size
    → page_flags pages (user_page_of va) ≡ none
    → range_from (rounds_for size) pages required va size 0 ≡ false
unfolding range_from
above_fails pages required va size word some_bytes absent =
    let rounds : rounds_for size ≡ suc (size / user_page_size + 1) = omega arith in
    let first : (va + 0) % 2 ^ 64 ≡ va = omega arith in
    rw rounds (ground (arith, absent, ap (λ a. page_flags pages (user_page_of a)) first))

-- For an address of 64 bits that is not above the user limit or, if it is, not on a page of the
-- process (process_map_user_page adds none there): process_user_range_valid accepts the range exactly
-- if the process is no zombie, the range is not empty, starts in the user area and ends in it, and
-- every byte of it lies on a page of the process with the rights: writable where that is required,
-- and with the no-execute flag exactly where that is required.
pub process_user_range_valid_lem :
    (t : ProcessTable) (pid slot va size required : ℕ)
    → process_get t pid ≡ some slot
    → va < 2 ^ 64
    → (user_limit < va → page_flags (process_at t slot).memory.pages (user_page_of va) ≡ none)
    → (process_user_range_valid t pid va size required ≡ true) ↔ (
        (is_zombie (process_at t slot).state ≡ false)
        × (0 < size)
        × (user_base ≤ va)
        × (va + size ≤ user_limit)
        × ((b : ℕ)
            → va ≤ b
            → b < va + size
            → byte_allowed (process_at t slot).memory.pages required b ≡ true))
unfolding process_user_range_valid
process_user_range_valid_lem t pid slot va size required found word above =
    let p = process_at t slot in
    let pages = p.memory.pages in
    elim (Bool-cases (is_zombie p.state || not (range_in_user va size))) [
      | inl bad ↦ (
        λ ok. absurd (ground (arith, ok, found, bad)),
        λ h. absurd (ground (arith, bad, h.0, h.1, h.2, h.3)),
      )
      | inr fit ↦
          let loop : process_user_range_valid t pid va size required
              ≡ range_from (rounds_for size) pages required va size 0 =
            ground (arith, found, fit) in
          let some_bytes : 0 < size = ground (arith, fit) in
          (
            λ ok.
                let inside : va + size ≤ user_limit = elim (Bool-cases (ltb user_limit va)) [
                  | inr below ↦ ground (arith, fit, below, word)
                  | inl high ↦ absurd (
                      ground (
                        arith,
                        sym loop ∙ ok,
                        above_fails pages required va size word some_bytes
                            (above (ground (arith, high))),
                      ))
                ] in
                (
                  ground (arith, fit),
                  some_bytes,
                  ground (arith, fit),
                  inside,
                  λ b low high.
                      range_from_sound pages required va size inside (rounds_for size) 0
                        (sym loop ∙ ok) b (omega arith) high,
                ),
            λ h.
                loop
                ∙ range_from_complete pages required va size h.3 (rounds_for size) 0
                    (λ b low high. h.4 b (omega arith) high)
                    (let inside = h.3 in omega (arith, inside)),
          )
    ]

-- When a byte of a range that does not end above the user limit lies on a page with the no-execute
-- flag, process_user_read and process_user_write of the range fail, the latter without a change.
pub user_access-refuses_nx :
    {W : Type 0} (k : PagingServices W) (t : ProcessTable) (pid slot va b flags : ℕ)
    (bytes : List ℕ) (w : W)
    → process_get t pid ≡ some slot
    → va + length bytes ≤ user_limit
    → va ≤ b
    → b < va + length bytes
    → page_flags (process_at t slot).memory.pages (user_page_of b) ≡ some flags
    → is_nx flags ≡ true
    → (process_user_read k t pid va (length bytes) w ≡ none)
      × (process_user_write k t pid va bytes w ≡ (false, w))
unfolding process_user_read process_user_write
user_access-refuses_nx k t pid slot va b flags bytes w found inside low high mapped nx =
    let size = length bytes in
    let refused : (required : ℕ)
        → is_nx required ≡ false
        → process_user_range_valid t pid va size required ≡ false =
      λ required plain. elim (Bool-cases (process_user_range_valid t pid va size required)) [
        | inr bad ↦ bad
        | inl ok ↦
            let (alive, some_bytes, start, end, all) =
              (process_user_range_valid_lem t pid slot va size required found (omega arith)
                  (λ above. absurd (omega arith))).0
                ok in
            absurd (ground (arith, all b low high, mapped, nx, plain))
      ] in
    (
      ground (arith, found, refused 0 (ground arith)),
      ground (arith, found, refused page_writable (ground arith)),
    )
