-- ===== src/Ipc/States.antt =====
-- nexus_ipc_process_terminate leaves the states of the processes.
use nexus_os.Base.{
  ℕ, zero, suc, ◌+◌, ◌-◌, ◌≡◌, ◌∙◌, inl, inr, refl, List, [], ◌∷◌, Bool-cases, Option-cases, get_or,
  set, length, length-set, find_index, ◌==◌,
}
use nexus_os.Process.{
  Process, ProcessTable, no_process, process_get, process_at, put_process, max_channels,
}
use nexus_os.Channel.{Side, find_side, port, other, both_closed}
use nexus_os.Ipc.{
  Ipc, channel_at, channel_id, close_side, forget_channel, give_up, nexus_ipc_process_terminate,
  put_channel, put_handle, terminate_handle, terminate_handles, with_handle,
}

-- As many slots, and each in the same state.
pub record SameStates (t t' : ProcessTable) : Type 0 where
  pub same_length : length t'.processes ≡ length t.processes
  pub same_ready : t'.table_ready ≡ t.table_ready
  pub same_state : (k : ℕ) → (process_at t' k).state ≡ (process_at t k).state

SameStates-refl : (t : ProcessTable) → SameStates t t
SameStates-refl t = record { same_length = refl; same_ready = refl; same_state = λ k. refl }

SameStates-trans : (t u v : ProcessTable) → SameStates t u → SameStates u v → SameStates t v
SameStates-trans t u v a b = record {
  same_length = b.same_length ∙ a.same_length;
  same_ready = b.same_ready ∙ a.same_ready;
  same_state = λ k. b.same_state k ∙ a.same_state k;
}

state-set :
    (xs : List Process) (i k : ℕ) (x : Process)
    → x.state ≡ (get_or xs i no_process).state
    → (get_or (set xs i x) k no_process).state ≡ (get_or xs k no_process).state
state-set [] i k x e = refl
state-set (y ∷ xs) zero zero x e = e
state-set (y ∷ xs) zero (suc k) x e = refl
state-set (y ∷ xs) (suc i) zero x e = refl
state-set (y ∷ xs) (suc i) (suc k) x e = state-set xs i k x e

-- A store of a process in the same state.
pub put-SameStates :
    (t : ProcessTable) (slot : ℕ) (p : Process)
    → p.state ≡ (process_at t slot).state
    → SameStates t (put_process t slot p)
put-SameStates t slot p e = record {
  same_length = length-set t.processes slot p;
  same_ready = refl;
  same_state = λ k. state-set t.processes slot k p e;
}

with_handle-SameStates : (t : ProcessTable) (slot h v : ℕ) → SameStates t (with_handle t slot h v)
with_handle-SameStates t slot h v = put-SameStates t slot _ refl

forget_channel-SameStates :
    (s : Ipc) (peer id : ℕ) → SameStates s.table (forget_channel s peer id).table
unfolding forget_channel
forget_channel-SameStates s peer id =
    elim (Option-cases (find_index (λ h. h == id) (process_at s.table peer).ipc_handles)) [
      | inl e ↦ rw (e, forget_channel) (SameStates-refl s.table)
      | inr (ph, e) ↦ rw (e, forget_channel) (with_handle-SameStates s.table peer ph 0)
    ]

give_up-SameStates :
    (s : Ipc) (slot h id : ℕ) (side : Side) → SameStates s.table (give_up s slot h id side).table
unfolding give_up
give_up-SameStates s slot h id side =
    let c = channel_at s (id - 1) in
    let closed = put_handle (put_channel s (id - 1) (close_side c side)) slot h 0 in
    let first = with_handle-SameStates s.table slot h 0 in
    elim (Bool-cases (both_closed (close_side c side))) [
      | inl e ↦ rw (e, give_up) first
      | inr e ↦ elim (Option-cases (process_get closed.table (port c (other side)).pid)) [
        | inl f ↦ rw (e, f, give_up) first
        | inr (peer, f) ↦
            rw (e, f, give_up)
              (SameStates-trans s.table closed.table (forget_channel closed peer id).table first
                (forget_channel-SameStates closed peer id))
      ]
    ]

terminate_handle-SameStates :
    (s : Ipc) (pid slot h : ℕ) → SameStates s.table (terminate_handle s pid slot h).table
unfolding terminate_handle
terminate_handle-SameStates s pid slot h = elim (Option-cases (channel_id s slot (h + 1))) [
  | inl e ↦ rw (e, terminate_handle) (SameStates-refl s.table)
  | inr (id, e) ↦ elim (Option-cases (find_side (channel_at s (id - 1)) pid)) [
    | inl f ↦ rw (e, f, terminate_handle) (SameStates-refl s.table)
    | inr (side, f) ↦ rw (e, f, terminate_handle) (give_up-SameStates s slot h id side)
  ]
]

terminate_handles-SameStates :
    (n : ℕ) (s : Ipc) (pid slot h : ℕ) → SameStates s.table (terminate_handles n s pid slot h).table
unfolding terminate_handles
terminate_handles-SameStates zero s pid slot h = SameStates-refl s.table
terminate_handles-SameStates (suc n) s pid slot h =
    SameStates-trans s.table (terminate_handle s pid slot h).table
      (terminate_handles n (terminate_handle s pid slot h) pid slot (h + 1)).table
      (terminate_handle-SameStates s pid slot h)
      (terminate_handles-SameStates n (terminate_handle s pid slot h) pid slot (h + 1))

pub terminate-SameStates :
    (s : Ipc) (pid : ℕ) → SameStates s.table (nexus_ipc_process_terminate s pid).table
unfolding nexus_ipc_process_terminate
terminate-SameStates s pid = elim (Option-cases (process_get s.table pid)) [
  | inl e ↦ rw (e, nexus_ipc_process_terminate) (SameStates-refl s.table)
  | inr (slot, e) ↦
      rw (e, nexus_ipc_process_terminate) (terminate_handles-SameStates max_channels s pid slot 0)
]
