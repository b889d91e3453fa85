-- ===== src/Ipc/Stuck.antt =====
-- A channel that is active while no process holds a handle for it stays so under every call.
use native.Mathlib.Decide.{ℕ_discrete}
use nexus_os.Base.{
  ℕ, ◌+◌, ◌-◌, ◌≡◌, refl, sym, ap, ◌∙◌, ◌≢◌, inl, inr, true, ◌&&◌, not, Option, some, List, arith,
  leb, ltb, ◌==◌, get_or, get_or-set_ne, get_or-set_cases, find_index, find_index-some, Ensures,
  >>=-Ensures, guard, Option-cases, Bool-cases,
}
use nexus_os.Process.{ProcessTable, process_get, no_process}
use nexus_os.Channel.{
  Channel, Port, Side, other, port, put_port, find_side, both_closed, enqueue, dequeue, message_max,
  queue_depth, side0, side1,
}
use nexus_os.Ipc.{
  Ipc, no_zombie, channel_at, no_channel, put_channel, put_handle, with_handle, handle_at,
  close_side, find_channel_for_handle, channel_id, nexus_ipc_close, nexus_ipc_create,
  nexus_ipc_send, nexus_ipc_recv, forget_channel, give_up, find_free_channel, is_free_channel,
  find_free_handle, open_channel,
}
use nexus_os.Ipc.Handles.{handles_of}

-- No process has the channel id in its handle table.
abbrev pub IsUnheld : ProcessTable → ℕ → Type 0
IsUnheld t id = (slot h : ℕ) → get_or (handles_of t slot) h 0 ≢ id

pub record IsStuck (s : Ipc) (i : ℕ) : Type 0 where
  pub active : (channel_at s i).active ≡ true
  pub unheld : IsUnheld s.table (i + 1)

pub with_handle-IsUnheld :
    (t : ProcessTable) (slot h v id : ℕ)
    → IsUnheld t id
    → v ≢ id
    → IsUnheld (with_handle t slot h v) id
with_handle-IsUnheld t slot h v id u ne k j e =
    elim (get_or-set_cases t.processes slot k _ no_process) [
      | inl same ↦ elim (get_or-set_cases (handles_of t slot) h j v 0) [
        | inl hit ↦ ne (sym hit ∙ ap (λ p. get_or p.ipc_handles j 0) (sym same) ∙ e)
        | inr kept ↦ u slot j (sym kept ∙ ap (λ p. get_or p.ipc_handles j 0) (sym same) ∙ e)
      ]
      | inr other_slot ↦ u k j (ap (λ p. get_or p.ipc_handles j 0) (sym other_slot) ∙ e)
    ]

-- A write to a channel that keeps it active if it is the one in question.
pub put_channel-active :
    (s : Ipc) (j i : ℕ) (c : Channel)
    → (channel_at s i).active ≡ true
    → (j ≡ i → c.active ≡ true)
    → (channel_at (put_channel s j c) i).active ≡ true
put_channel-active s j i c a same = elim (ℕ_discrete j i) [
  | yes e ↦ elim (get_or-set_cases s.channels j i c no_channel) [
    | inl hit ↦ ap (λ ch. ch.active) hit ∙ same e
    | inr kept ↦ ap (λ ch. ch.active) kept ∙ a
  ]
  | no ne ↦ ap (λ ch. ch.active) (get_or-set_ne s.channels j i c no_channel ne) ∙ a
]

pub put_port-active : (c : Channel) (side : Side) (p : Port) → (put_port c side p).active ≡ c.active
put_port-active c side0 p = refl
put_port-active c side1 p = refl

pub channel_id-some :
    (s : Ipc) (slot handle id : ℕ)
    → channel_id s slot handle ≡ some id
    → (id ≡ handle_at s slot (handle - 1)) × (id ≢ 0)
unfolding channel_id
channel_id-some s slot handle id e = (ground arith, ground arith)

with_port-IsStuck :
    (s : Ipc) (i j : ℕ) (side : Side) (p : Port)
    → IsStuck s i
    → IsStuck (put_channel s j (put_port (channel_at s j) side p)) i
with_port-IsStuck s i j side p k = record {
  active =
      put_channel-active s j i (put_port (channel_at s j) side p) k.active λ e.
        put_port-active (channel_at s j) side p ∙ ap (λ n. (channel_at s n).active) e ∙ k.active;
  unheld = k.unheld;
}

pub send-IsStuck :
    (s : Ipc) (pid handle i : ℕ) (buffer : Option (List ℕ)) (size : ℕ)
    → IsStuck s i
    → Ensures (λ s'. IsStuck s' i) (nexus_ipc_send s pid handle buffer size)
unfolding nexus_ipc_send
send-IsStuck s pid handle i buffer size k = >>=-Ensures _ buffer _ λ bytes _.
    >>=-Ensures _ (guard (not (size == 0) && leb size message_max)) _ λ _ _.
      >>=-Ensures _ (process_get s.table pid) _ λ slot _.
        >>=-Ensures _ (guard (no_zombie s slot)) _ λ _ _.
          >>=-Ensures _ (find_channel_for_handle s pid handle) _ λ j _.
            >>=-Ensures _ (find_side (channel_at s j) pid) _ λ side _.
              let target = port (channel_at s j) (other side) in
              >>=-Ensures _ (guard (not target.closed && ltb target.queue_count queue_depth)) _
                λ _ _. with_port-IsStuck s i j (other side) (enqueue target size bytes) k

pub recv-IsStuck :
    (s : Ipc) (pid handle i capacity : ℕ)
    → IsStuck s i
    → Ensures (λ r. IsStuck r.1 i) (nexus_ipc_recv s pid handle capacity)
unfolding nexus_ipc_recv
recv-IsStuck s pid handle i capacity k = >>=-Ensures _ (guard (not (capacity == 0))) _ λ _ _.
    >>=-Ensures _ (process_get s.table pid) _ λ slot _.
      >>=-Ensures _ (guard (no_zombie s slot)) _ λ _ _.
        >>=-Ensures _ (find_channel_for_handle s pid handle) _ λ j _.
          >>=-Ensures _ (find_side (channel_at s j) pid) _ λ side _.
            let source = port (channel_at s j) side in
            >>=-Ensures _ (guard (not (source.queue_count == 0))) _
              λ _ _. with_port-IsStuck s i j side (dequeue source) k

-- An id in a handle table is not the stuck channel's.
pub id_ne :
    (s : Ipc) (i slot handle id : ℕ) → IsStuck s i → channel_id s slot handle ≡ some id → id - 1 ≢ i
id_ne s i slot handle id k e e' =
    let (held, used) = channel_id-some s slot handle id e in
    k.unheld slot (handle - 1) (sym held ∙ omega arith)

put_handle-IsStuck :
    (s : Ipc) (i slot h v : ℕ) → IsStuck s i → v ≢ i + 1 → IsStuck (put_handle s slot h v) i
put_handle-IsStuck s i slot h v k ne = record {
  active = k.active;
  unheld = with_handle-IsUnheld s.table slot h v (i + 1) k.unheld ne;
}

pub zero-ne : (i : ℕ) → 0 ≢ i + 1
zero-ne i = omega arith

-- The channel and handle writes of a close, at another channel.
closing-IsStuck :
    (s : Ipc) (i j slot h : ℕ) (c : Channel)
    → IsStuck s i
    → j ≢ i
    → IsStuck (put_handle (put_channel s j c) slot h 0) i
closing-IsStuck s i j slot h c k ne =
    put_handle-IsStuck (put_channel s j c) i slot h 0
      (record {
        active = put_channel-active s j i c k.active (λ e. absurd (ne e));
        unheld = k.unheld;
      })
      (zero-ne i)

pub close-IsStuck :
    (s : Ipc) (pid handle i : ℕ)
    → IsStuck s i
    → Ensures (λ s'. IsStuck s' i) (nexus_ipc_close s pid handle)
unfolding nexus_ipc_close
close-IsStuck s pid handle i k = >>=-Ensures _ (process_get s.table pid) _ λ slot _.
    >>=-Ensures _ (channel_id s slot handle) _ λ id named.
      >>=-Ensures _ (find_side (channel_at s (id - 1)) pid) _ λ side _.
        closing-IsStuck s i (id - 1) slot (handle - 1) (close_side (channel_at s (id - 1)) side) k
          (id_ne s i slot handle id k named)

free_ne : (s : Ipc) (i j : ℕ) → IsStuck s i → find_free_channel s ≡ some j → j ≢ i
unfolding find_free_channel
free_ne s i j k e e' =
    let (_, free, _) = find_index-some is_free_channel s.channels no_channel j e in
    ground (arith, k.active, ap (λ n. (channel_at s n).active) e')

pub create-IsStuck :
    (s : Ipc) (owner_pid peer_pid i : ℕ)
    → IsStuck s i
    → Ensures (λ r. IsStuck r.1 i) (nexus_ipc_create s owner_pid peer_pid)
unfolding nexus_ipc_create
create-IsStuck s owner_pid peer_pid i k =
    let distinct =
      s.ready && not (owner_pid == 0) && not (peer_pid == 0) && not (owner_pid == peer_pid) in
    >>=-Ensures _ (guard distinct) _ λ _ _.
      >>=-Ensures _ (process_get s.table owner_pid) _ λ owner _.
        >>=-Ensures _ (process_get s.table peer_pid) _ λ peer _.
          >>=-Ensures _ (guard (no_zombie s owner && no_zombie s peer)) _ λ _ _.
            >>=-Ensures _ (find_free_handle s owner) _ λ owner_slot _.
              >>=-Ensures _ (find_free_handle s peer) _ λ peer_slot _.
                >>=-Ensures _ (find_free_channel s) _ λ j free.
                  let ne = free_ne s i j k free in
                  let ne' : j + 1 ≢ i + 1 = omega arith in
                  let opened = put_channel s j (open_channel (channel_at s j) owner_pid peer_pid) in
                  let stuck : IsStuck opened i = record {
                    active = put_channel-active s j i _ k.active (λ e. absurd (ne e));
                    unheld = k.unheld;
                  } in
                  put_handle-IsStuck (put_handle opened owner owner_slot (j + 1)) i peer peer_slot
                    (j + 1) (put_handle-IsStuck opened i owner owner_slot (j + 1) stuck ne') ne'

forget-IsStuck : (s : Ipc) (i peer id : ℕ) → IsStuck s i → IsStuck (forget_channel s peer id) i
unfolding forget_channel
forget-IsStuck s i peer id k =
    elim (Option-cases (find_index (λ h. h == id) (handles_of s.table peer))) [
      | inl e ↦ rw (e, forget_channel) k
      | inr (ph, e) ↦ rw (e, forget_channel) (put_handle-IsStuck s i peer ph 0 k (zero-ne i))
    ]

pub give_up-IsStuck :
    (s : Ipc) (i slot h id : ℕ) (side : Side)
    → IsStuck s i
    → id - 1 ≢ i
    → IsStuck (give_up s slot h id side) i
unfolding give_up
give_up-IsStuck s i slot h id side k ne =
    let c = channel_at s (id - 1) in
    let closed = put_handle (put_channel s (id - 1) (close_side c side)) slot h 0 in
    let done = closing-IsStuck s i (id - 1) slot h (close_side c side) k ne in
    elim (Bool-cases (both_closed (close_side c side))) [
      | inl e ↦ rw (e, give_up) done
      | inr e ↦ elim (Option-cases (process_get closed.table (port c (other side)).pid)) [
        | inl gone ↦ rw (e, gone, give_up) done
        | inr (peer, live) ↦ rw (e, live, give_up) (forget-IsStuck closed i peer id done)
      ]
    ]
