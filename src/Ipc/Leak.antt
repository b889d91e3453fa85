-- ===== src/Ipc/Leak.antt =====
-- A process ends while its peer lives: the peer's handle is taken away, its end is not closed.
use native.Mathlib.Decide.{ℕ_discrete}
use nexus_os.Base.{
  ℕ, ◌+◌, ◌-◌, ◌<◌, ◌≡◌, sym, ap, ◌∙◌, ◌≢◌, ◌⊎◌, inl, inr, true, false, some, List, arith, ◌==◌,
  length, get_or, set, get_or-set_self, get_or-set_ne, get_or-set_default, length-set, find_index,
  subst,
}
use nexus_os.Process.{ProcessTable, process_get}
use nexus_os.Channel.{Channel, Side, side0, side1, other, port, find_side, both_closed}
use nexus_os.Ipc.{
  Ipc, channel_at, no_channel, put_channel, put_handle, with_handle, handle_at, close_side,
  channel_id, nexus_ipc_process_terminate, forget_channel, give_up, terminate_handle,
  terminate_handles, Call, run,
}
use nexus_os.Ipc.Handles.{
  handles_of, handles-with_handle_self, process_at-with_handle_ne, process_get-with_handle,
  process_get-some,
}
use nexus_os.Ipc.Stuck.{IsUnheld, IsStuck}
use nexus_os.Ipc.Terminate.{terminate_handles-IsStuck, run-IsStuck}

-- The id stands only where `P` says.
abbrev HeldAt : ProcessTable → ℕ → (ℕ → ℕ → Type 0) → Type 0
HeldAt t id P = (k j : ℕ) → get_or (handles_of t k) j 0 ≡ id → P k j

with_handle-HeldAt :
    (t : ProcessTable) (slot h id : ℕ) (P : ℕ → ℕ → Type 0)
    → id ≢ 0
    → slot < length t.processes
    → HeldAt t id P
    → HeldAt (with_handle t slot h 0) id (λ k j. P k j × ¬ ((k ≡ slot) × (j ≡ h)))
with_handle-HeldAt t slot h id P ne lt held k j e = elim (ℕ_discrete slot k) [
  | no away ↦ (
    held k j (
        ap (λ p. get_or p.ipc_handles j 0) (sym (process_at-with_handle_ne t slot h 0 k away)) ∙ e),
    λ at. away (sym at.0),
  )
  | yes here ↦
      let e' =
        ap (λ hs. get_or hs j 0) (sym (handles-with_handle_self t slot h 0 lt))
        ∙ ap (λ n. get_or (handles_of (with_handle t slot h 0) n) j 0) here
        ∙ e in
      elim (ℕ_discrete h j) [
        | yes hit ↦ absurd (
            ne (
              sym e'
              ∙ ap (λ n. get_or (set (handles_of t slot) n 0) j 0) hit
              ∙ get_or-set_default (handles_of t slot) j 0))
        | no miss ↦ (
          subst (λ n. P n j) here
              (held slot j (sym (get_or-set_ne (handles_of t slot) h j 0 0 miss) ∙ e')),
          λ at. miss (sym at.1),
        )
      ]
]

-- A process whose first handle is its end of channel `i`, and a live peer that holds the other end.
pub record Linked (s : Ipc) (pid slot i : ℕ) (side : Side) (peer ph : ℕ) : Type 0 where
  pub live : process_get s.table pid ≡ some slot
  pub named : channel_id s slot 1 ≡ some (i + 1)
  pub sided : find_side (channel_at s i) pid ≡ some side
  pub active : (channel_at s i).active ≡ true
  pub in_table : i < length s.channels
  pub peer_open : (port (channel_at s i) (other side)).closed ≡ false
  pub peer_live : process_get s.table (port (channel_at s i) (other side)).pid ≡ some peer
  pub peer_holds : find_index (λ h. h == i + 1) (handles_of s.table peer) ≡ some ph
  pub only : (k j : ℕ) → handle_at s k j ≡ i + 1 → ((k ≡ slot) × (j ≡ 0)) ⊎ ((k ≡ peer) × (j ≡ ph))
  pub apart : slot ≢ peer

close_side-open :
    (c : Channel) (side : Side)
    → (port c (other side)).closed ≡ false
    → (both_closed (close_side c side) ≡ false) × ((close_side c side).active ≡ c.active)
close_side-open c side0 e = (ground arith, ground arith)
close_side-open c side1 e = (ground arith, ground arith)

module _ {s : Ipc} {pid slot i : ℕ} {side : Side} {peer ph : ℕ}
    (l : Linked s pid slot i side peer ph) where
  closed_end : Ipc
  closed_end = put_handle (put_channel s i (close_side (channel_at s i) side)) slot 0 0

  peer_kept : find_index (λ h. h == i + 1) (handles_of closed_end.table peer) ≡ some ph
  unfolding closed_end
  peer_kept =
      ap (λ p. find_index (λ h. h == i + 1) p.ipc_handles)
        (process_at-with_handle_ne s.table slot 0 0 peer l.apart)
      ∙ l.peer_holds

  same_index : i + 1 - 1 ≡ i
  same_index = omega arith

  gives_up : terminate_handle s pid slot 0 ≡ give_up s slot 0 (i + 1) side
  unfolding terminate_handle
  gives_up =
      let sided : find_side (channel_at s (i + 1 - 1)) pid ≡ some side =
        ap (λ n. find_side (channel_at s n) pid) same_index ∙ l.sided in
      rw (l.named, sided, terminate_handle)

  forgets : give_up s slot 0 (i + 1) side ≡ forget_channel closed_end peer (i + 1)
  unfolding give_up closed_end
  forgets =
      let still_open = (close_side-open (channel_at s i) side l.peer_open).0 in
      let peer_live =
        process_get-with_handle s.table slot 0 0 (port (channel_at s i) (other side)).pid
        ∙ l.peer_live in
      rw (same_index, still_open, peer_live, give_up)
        (ap
          (λ n.
            forget_channel
              (put_handle (put_channel s n (close_side (channel_at s n) side)) slot 0 0) peer
              (i + 1))
          same_index)

  forgotten : forget_channel closed_end peer (i + 1) ≡ put_handle closed_end peer ph 0
  unfolding forget_channel
  forgotten = rw (peer_kept, forget_channel)

  held_nowhere : IsUnheld (put_handle closed_end peer ph 0).table (i + 1)
  unfolding closed_end
  held_nowhere k j e =
      let slot_in = (process_get-some s.table pid slot l.live).0 in
      let peer_in = (process_get-some s.table _ peer l.peer_live).0 in
      let half = with_handle s.table slot 0 0 in
      let ne : i + 1 ≢ 0 = omega arith in
      let first = with_handle-HeldAt s.table slot 0 (i + 1) _ ne slot_in l.only in
      let ((at, not_own), not_peer) =
        with_handle-HeldAt half peer ph (i + 1) _ ne
          (omega (arith, peer_in, length-set {0} s.table.processes slot _)) first k j e in
      elim at [ inl own ↦ not_own own | inr theirs ↦ not_peer theirs ]

  first_round-IsStuck : IsStuck (terminate_handle s pid slot 0) i
  unfolding closed_end
  first_round-IsStuck =
      subst (λ r. IsStuck r i) (sym (gives_up ∙ forgets ∙ forgotten))
        (record {
          active =
              ap (λ c. c.active)
                (get_or-set_self s.channels i (close_side (channel_at s i) side) no_channel
                  l.in_table)
              ∙ (close_side-open (channel_at s i) side l.peer_open).1
              ∙ l.active;
          unheld = held_nowhere;
        })

  -- When a process ends whose first handle is one end of a channel, while a live peer holds the
  -- other end and nobody else holds either, then after nexus_ipc_process_terminate and any further
  -- IPC calls the channel is still active and no process has a handle for it.
  pub terminate_leaks : (cs : List Call) → IsStuck (run (nexus_ipc_process_terminate s pid) cs) i
  unfolding nexus_ipc_process_terminate terminate_handles
  terminate_leaks cs = run-IsStuck _ cs i (
      rw (l.live, nexus_ipc_process_terminate)
        (terminate_handles-IsStuck 7 (terminate_handle s pid slot 0) pid slot 1 i
          first_round-IsStuck))
