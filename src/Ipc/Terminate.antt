-- ===== src/Ipc/Terminate.antt =====
-- nexus_ipc_process_terminate, and what it leaves behind when the peer lives on.
use nexus_os.Base.{
  ℕ, zero, suc, ◌+◌, ◌-◌, inl, inr, Option, none, some, List, [], ◌∷◌, Ensures, Option-cases,
}
use nexus_os.Process.{process_get, max_channels}
use nexus_os.Channel.{find_side}
use nexus_os.Ipc.{
  Ipc, channel_at, channel_id, nexus_ipc_process_terminate, terminate_handle, terminate_handles,
  Call, create, close, send, recv, terminate, or_same, state_of, apply, run,
}
use nexus_os.Ipc.Stuck.{
  IsStuck, id_ne, create-IsStuck, close-IsStuck, send-IsStuck, recv-IsStuck, give_up-IsStuck,
}

terminate_handle-IsStuck :
    (s : Ipc) (pid slot h i : ℕ) → IsStuck s i → IsStuck (terminate_handle s pid slot h) i
unfolding terminate_handle
terminate_handle-IsStuck s pid slot h i k = elim (Option-cases (channel_id s slot (h + 1))) [
  | inl e ↦ rw (e, terminate_handle) k
  | inr (id, e) ↦ elim (Option-cases (find_side (channel_at s (id - 1)) pid)) [
    | inl f ↦ rw (e, f, terminate_handle) k
    | inr (side, f) ↦
        rw (e, f, terminate_handle)
          (give_up-IsStuck s i slot h id side k (id_ne s i slot (h + 1) id k e))
  ]
]

pub terminate_handles-IsStuck :
    (n : ℕ) (s : Ipc) (pid slot h i : ℕ)
    → IsStuck s i
    → IsStuck (terminate_handles n s pid slot h) i
unfolding terminate_handles
terminate_handles-IsStuck zero s pid slot h i k = k
terminate_handles-IsStuck (suc n) s pid slot h i k =
    terminate_handles-IsStuck n (terminate_handle s pid slot h) pid slot (h + 1) i
      (terminate_handle-IsStuck s pid slot h i k)

terminate-IsStuck :
    (s : Ipc) (pid i : ℕ) → IsStuck s i → IsStuck (nexus_ipc_process_terminate s pid) i
unfolding nexus_ipc_process_terminate
terminate-IsStuck s pid i k = elim (Option-cases (process_get s.table pid)) [
  | inl e ↦ rw (e, nexus_ipc_process_terminate) k
  | inr (slot, e) ↦
      rw (e, nexus_ipc_process_terminate) (terminate_handles-IsStuck max_channels s pid slot 0 i k)
]

or_same-IsStuck :
    (s : Ipc) (i : ℕ) (o : Option Ipc)
    → IsStuck s i
    → Ensures (λ s'. IsStuck s' i) o
    → IsStuck (or_same s o) i
or_same-IsStuck s i none k h = k
or_same-IsStuck s i (some s') k h = h

state_of-IsStuck :
    {A : Type 0} (i : ℕ) (o : Option (A × Ipc))
    → Ensures (λ r. IsStuck r.1 i) o
    → Ensures (λ s'. IsStuck s' i) (state_of o)
state_of-IsStuck i none h = tt
state_of-IsStuck i (some (a, s)) h = h

apply-IsStuck : (s : Ipc) (c : Call) (i : ℕ) → IsStuck s i → IsStuck (apply s c) i
unfolding apply
apply-IsStuck s (create owner_pid peer_pid) i k =
    or_same-IsStuck s i _ k (state_of-IsStuck i _ (create-IsStuck s owner_pid peer_pid i k))
apply-IsStuck s (close pid handle) i k = or_same-IsStuck s i _ k (close-IsStuck s pid handle i k)
apply-IsStuck s (send pid handle buffer size) i k =
    or_same-IsStuck s i _ k (send-IsStuck s pid handle i buffer size k)
apply-IsStuck s (recv pid handle capacity) i k =
    or_same-IsStuck s i _ k (state_of-IsStuck i _ (recv-IsStuck s pid handle i capacity k))
apply-IsStuck s (terminate pid) i k = terminate-IsStuck s pid i k

-- No sequence of IPC calls frees a channel for which no process has a handle.
pub run-IsStuck : (s : Ipc) (cs : List Call) (i : ℕ) → IsStuck s i → IsStuck (run s cs) i
unfolding run
run-IsStuck s [] i k = k
run-IsStuck s (c ∷ cs) i k = run-IsStuck (apply s c) cs i (apply-IsStuck s c i k)
