-- ===== src/Ipc/Handles.antt =====
-- Writes to the handle table of one process.
use native.Mathlib.Decide.{ℕ_discrete}
use nexus_os.Base.{
  ℕ, ◌<◌, ◌≡◌, refl, ap, ◌≢◌, true, some, List, arith, length, set, get_or-set_self, get_or-set_ne,
  find_index, find_index-some, find_index-set, subst,
}
use nexus_os.Process.{Process, ProcessTable, no_process, owns_pid, process_get, process_at}
use nexus_os.Ipc.{with_handle}

abbrev pub handles_of : ProcessTable → ℕ → List ℕ
handles_of t slot = (process_at t slot).ipc_handles

module _ (t : ProcessTable) (slot h v : ℕ) where
  process_at-with_handle :
      slot < length t.processes
      → process_at (with_handle t slot h v) slot
        ≡ record (process_at t slot) { ipc_handles = set (handles_of t slot) h v }
  process_at-with_handle lt = get_or-set_self t.processes slot _ no_process lt

  pub handles-with_handle_self :
      slot < length t.processes
      → handles_of (with_handle t slot h v) slot ≡ set (handles_of t slot) h v
  handles-with_handle_self lt = ap (λ p. p.ipc_handles) (process_at-with_handle lt)

  pub process_at-with_handle_ne :
      (k : ℕ) → slot ≢ k → process_at (with_handle t slot h v) k ≡ process_at t k
  process_at-with_handle_ne k ne = get_or-set_ne t.processes slot k _ no_process ne

  -- No process is found elsewhere for it.
  pub process_get-with_handle :
      (pid : ℕ) → process_get (with_handle t slot h v) pid ≡ process_get t pid
  unfolding process_get
  process_get-with_handle pid = ground (
    arith,
    find_index-set (owns_pid pid) t.processes slot
        (record (process_at t slot) { ipc_handles = set (handles_of t slot) h v }) no_process refl,
  )

  pub state-with_handle :
      (k : ℕ)
      → slot < length t.processes
      → (process_at (with_handle t slot h v) k).state ≡ (process_at t k).state
  state-with_handle k lt = elim (ℕ_discrete slot k) [
    | yes e ↦
        subst (λ j. (process_at (with_handle t slot h v) j).state ≡ (process_at t j).state) e
          (ap (λ p. p.state) (process_at-with_handle lt))
    | no ne ↦ ap (λ p. p.state) (process_at-with_handle_ne k ne)
  ]

searched :
    (t : ProcessTable) (pid slot : ℕ)
    → process_get t pid ≡ some slot
    → find_index (owns_pid pid) t.processes ≡ some slot
unfolding process_get
searched t pid slot e = ground arith

owns_pid_lem : (pid : ℕ) (p : Process) → owns_pid pid p ≡ true → p.pid ≡ pid
owns_pid_lem pid p e = ground arith

-- Who is found stands in the table, under the pid.
pub process_get-some :
    (t : ProcessTable) (pid slot : ℕ)
    → process_get t pid ≡ some slot
    → (slot < length t.processes) × ((process_at t slot).pid ≡ pid)
process_get-some t pid slot e =
    let (lt, owned, _) =
      find_index-some (owns_pid pid) t.processes no_process slot (searched t pid slot e) in
    (lt, owns_pid_lem pid (process_at t slot) owned)
