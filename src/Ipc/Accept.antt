-- ===== src/Ipc/Accept.antt =====
-- kernel/core/ipc/ipc.c: when nexus_ipc_send takes a message.
use nexus_os.Base.{
  inl, inr, Option-cases, ◌-◌, ℕ, ◌≤◌, ◌<◌, ◌≡◌, ◌≢◌, ◌↔◌, true, false, none, some, List, arith,
}
use nexus_os.Process.{process_get, process_at, is_zombie, max_channels}
use nexus_os.Channel.{Side, other, port, find_side, enqueue}
use nexus_os.Ipc.{
  Ipc, channel_at, find_channel_for_handle, nexus_ipc_send, handle_at, channel_id, max_ipc_channels,
}
use nexus_os.Ipc.Transfer.{IsAccepted, with_port}

-- When nexus_ipc_send takes a message: a process with the id exists and is no zombie, its handle is
-- in range and holds the id of an active channel, of which the process is one side, its own end is
-- open, and the message is accepted for the other.
pub record CanSend (s : Ipc) (pid handle size : ℕ) : Type 0 where
  pub slot : ℕ
  pub live : process_get s.table pid ≡ some slot
  pub awake : is_zombie (process_at s.table slot).state ≡ false
  pub some_handle : 0 < handle
  pub handle_in : handle ≤ max_channels
  pub some_id : 0 < handle_at s slot (handle - 1)
  pub id_in : handle_at s slot (handle - 1) ≤ max_ipc_channels
  pub side : Side
  pub active : (channel_at s (handle_at s slot (handle - 1) - 1)).active ≡ true
  pub sided : find_side (channel_at s (handle_at s slot (handle - 1) - 1)) pid ≡ some side
  pub own_open : (port (channel_at s (handle_at s slot (handle - 1) - 1)) side).closed ≡ false
  pub accepted : IsAccepted s (handle_at s slot (handle - 1) - 1) side size

may_send :
    (s s' : Ipc) (pid handle : ℕ) (bytes : List ℕ) (size slot : ℕ) (side : Side)
    → nexus_ipc_send s pid handle (some bytes) size ≡ some s'
    → process_get s.table pid ≡ some slot
    → find_side (channel_at s (handle_at s slot (handle - 1) - 1)) pid ≡ some side
    → CanSend s pid handle size
unfolding nexus_ipc_send find_channel_for_handle channel_id find_side
may_send s s' pid handle bytes size slot side e live sided = record {
  slot = slot;
  live = live;
  awake = ground (arith, e, live, sided);
  some_handle = ground (arith, e, live, sided);
  handle_in = ground (arith, e, live, sided);
  some_id = ground (arith, e, live, sided);
  id_in = ground (arith, e, live, sided);
  side = side;
  active = ground (arith, sided);
  sided = sided;
  own_open = ground (arith, e, live, sided);
  accepted = record {
    some_bytes = ground (arith, e, live, sided);
    small = ground (arith, e, live, sided);
    open_end = ground (arith, e, live, sided);
    room = ground (arith, e, live, sided);
  };
}

no_side :
    (s s' : Ipc) (pid handle : ℕ) (bytes : List ℕ) (size slot : ℕ)
    → nexus_ipc_send s pid handle (some bytes) size ≡ some s'
    → process_get s.table pid ≡ some slot
    → find_side (channel_at s (handle_at s slot (handle - 1) - 1)) pid ≢ none
unfolding nexus_ipc_send find_channel_for_handle channel_id
no_side s s' pid handle bytes size slot e live absent = ground (arith, e, live, absent)

no_process :
    (s s' : Ipc) (pid handle : ℕ) (bytes : List ℕ) (size : ℕ)
    → nexus_ipc_send s pid handle (some bytes) size ≡ some s'
    → process_get s.table pid ≢ none
unfolding nexus_ipc_send
no_process s s' pid handle bytes size e absent = ground (arith, e, absent)

-- nexus_ipc_send of a buffer takes the message exactly if the process exists and is no zombie, the
-- handle is in range and holds the id of an active channel with the process on one side, neither end
-- is closed, the size is from 1 to 256 bytes, and fewer than 8 messages wait at the other end.
pub send_accepts :
    (s : Ipc) (pid handle : ℕ) (bytes : List ℕ) (size : ℕ)
    → ((s' : Ipc) × (nexus_ipc_send s pid handle (some bytes) size ≡ some s'))
      ↔ CanSend s pid handle size
unfolding nexus_ipc_send find_channel_for_handle channel_id
send_accepts s pid handle bytes size = (
  λ (s', e). elim (Option-cases (process_get s.table pid)) [
    | inl absent ↦ absurd (no_process s s' pid handle bytes size e absent)
    | inr (slot, live) ↦
        elim (Option-cases (find_side (channel_at s (handle_at s slot (handle - 1) - 1)) pid)) [
          | inl absent ↦ absurd (no_side s s' pid handle bytes size slot e live absent)
          | inr (side, sided) ↦ may_send s s' pid handle bytes size slot side e live sided
        ]
  ],
  λ can.
      let i = handle_at s can.slot (handle - 1) - 1 in
      let far = port (channel_at s i) (other can.side) in
      (
        with_port s i (other can.side) (enqueue far size bytes),
        ground (
          arith, can.live, can.awake, can.some_handle, can.handle_in, can.some_id, can.id_in,
          can.sided, can.own_open, can.accepted.some_bytes, can.accepted.small,
          can.accepted.open_end, can.accepted.room,
        ),
      ),
)
