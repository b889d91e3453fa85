-- ===== src/Ipc.antt =====
-- kernel/core/ipc/ipc.c: the system calls on channels. A call that returns 0 is `none`, and each of
-- these returns stands before the first write; g_lock masks interrupts, so a call is one step.
-- A pointer to a channel is its index in g_channels.
pub mod Transfer
pub mod Accept
pub mod Delivery
pub mod Handles
pub mod Connect
pub mod Stuck
pub mod Close
pub mod Terminate
pub mod Leak
pub mod States
pub mod Tests
use nexus_os.Base.{
  ℕ, zero, suc, ◌+◌, ◌-◌, ◌%◌, ◌^◌, Bool, true, false, ◌&&◌, ◌||◌, not, Option, none, some, List,
  [], ◌∷◌, ltb, leb, ◌==◌, if◌then◌else◌, get_or, set, replicate, find_index, length, ◌>>=◌, ◌>>◌,
  guard,
}
use nexus_os.Process.{
  Process, ProcessTable, is_zombie, max_channels, process_get, process_at, put_process,
}
use nexus_os.Channel.{
  Channel, Port, Side, side0, side1, other, port, put_port, find_side, both_closed, reset_port,
  no_message, enqueue, front, dequeue, message_max, queue_depth,
}

abbrev pub max_ipc_channels : ℕ
max_ipc_channels = 16

pub record Ipc : Type 0 where
  pub channels : List Channel
  pub ready : Bool
  pub table : ProcessTable

abbrev pub no_port : Port
no_port = record {
  closed = false;
  pid = 0;
  queue_head = 0;
  queue_count = 0;
  queue = replicate queue_depth no_message;
}

abbrev pub no_channel : Channel
no_channel = record { active = false; port0 = no_port; port1 = no_port }

abbrev pub channel_at : Ipc → ℕ → Channel
channel_at s i = get_or s.channels i no_channel

abbrev pub put_channel : Ipc → ℕ → Channel → Ipc
put_channel s i c = record s { channels = set s.channels i c }

-- p->ipc_handles[h]
abbrev pub handle_at : Ipc → ℕ → ℕ → ℕ
handle_at s slot h = get_or (process_at s.table slot).ipc_handles h 0

abbrev pub with_handle : ProcessTable → ℕ → ℕ → ℕ → ProcessTable
with_handle t slot h v =
    put_process t slot
      (record (process_at t slot) { ipc_handles = set (process_at t slot).ipc_handles h v })

abbrev pub put_handle : Ipc → ℕ → ℕ → ℕ → Ipc
put_handle s slot h v = record s { table = with_handle s.table slot h v }

abbrev pub no_zombie : Ipc → ℕ → Bool
no_zombie s slot = not (is_zombie (process_at s.table slot).state)

-- The channel id that a handle of a process holds, if both are in range.
pub channel_id : Ipc → ℕ → ℕ → Option ℕ
channel_id s slot handle = do
  guard (not (handle == 0) && leb handle max_channels)
  let id = handle_at s slot (handle - 1)
  guard (not (id == 0) && leb id max_ipc_channels)
  some id

pub find_channel_for_handle : Ipc → ℕ → ℕ → Option ℕ
find_channel_for_handle s pid handle = do
  slot ← process_get s.table pid
  id ← channel_id s slot handle
  side ← find_side (channel_at s (id - 1)) pid
  guard (not (port (channel_at s (id - 1)) side).closed)
  some (id - 1)

abbrev pub is_free_handle : ℕ → Bool
is_free_handle id = id == 0

pub find_free_handle : Ipc → ℕ → Option ℕ
find_free_handle s slot = find_index is_free_handle (process_at s.table slot).ipc_handles

abbrev pub is_free_channel : Channel → Bool
is_free_channel c = not c.active

pub find_free_channel : Ipc → Option ℕ
find_free_channel s = find_index is_free_channel s.channels

init_channel : Channel → Channel
init_channel c = record c {
  active = false;
  port0 = record (c.port0) { closed = false };
  port1 = record (c.port1) { closed = false };
}

abbrev init_channels : List Channel → List Channel
init_channels [] = []
init_channels (c ∷ cs) = init_channel c ∷ init_channels cs

pub nexus_ipc_init : Ipc → Ipc
nexus_ipc_init s = record s { channels = init_channels s.channels; ready = true }

abbrev pub open_channel : Channel → ℕ → ℕ → Channel
open_channel c owner peer = record {
  active = true;
  port0 = reset_port c.port0 owner;
  port1 = reset_port c.port1 peer;
}

-- The handle written through `out_handle`, which is not NULL.
pub nexus_ipc_create : Ipc → ℕ → ℕ → Option (ℕ × Ipc)
nexus_ipc_create s owner_pid peer_pid = do
  guard (s.ready && not (owner_pid == 0) && not (peer_pid == 0) && not (owner_pid == peer_pid))
  owner ← process_get s.table owner_pid
  peer ← process_get s.table peer_pid
  guard (no_zombie s owner && no_zombie s peer)
  owner_slot ← find_free_handle s owner
  peer_slot ← find_free_handle s peer
  i ← find_free_channel s
  let opened = put_channel s i (open_channel (channel_at s i) owner_pid peer_pid)
  some (
    owner_slot + 1,
    put_handle (put_handle opened owner owner_slot (i + 1)) peer peer_slot (i + 1),
  )

-- A side gives its end up; the channel is free once both have.
abbrev pub close_side : Channel → Side → Channel
close_side c side =
    let closing = put_port c side (record (port c side) { closed = true }) in
    if both_closed closing then record closing { active = false } else closing

pub nexus_ipc_close : Ipc → ℕ → ℕ → Option Ipc
nexus_ipc_close s pid handle = do
  slot ← process_get s.table pid
  id ← channel_id s slot handle
  side ← find_side (channel_at s (id - 1)) pid
  some (
      put_handle (put_channel s (id - 1) (close_side (channel_at s (id - 1)) side)) slot
        (handle - 1) 0)

-- `buffer` is the memory behind `data`, `none` for NULL; the call returns `size`.
pub nexus_ipc_send : Ipc → ℕ → ℕ → Option (List ℕ) → ℕ → Option Ipc
nexus_ipc_send s pid handle buffer size = do
  bytes ← buffer
  guard (not (size == 0) && leb size message_max)
  slot ← process_get s.table pid
  guard (no_zombie s slot)
  i ← find_channel_for_handle s pid handle
  side ← find_side (channel_at s i) pid
  let target = port (channel_at s i) (other side)
  guard (not target.closed && ltb target.queue_count queue_depth)
  some (put_channel s i (put_port (channel_at s i) (other side) (enqueue target size bytes)))

-- What is written through `data`; its length is written through `out_size`. Neither is NULL.
pub nexus_ipc_recv : Ipc → ℕ → ℕ → ℕ → Option (List ℕ × Ipc)
nexus_ipc_recv s pid handle capacity = do
  guard (not (capacity == 0))
  slot ← process_get s.table pid
  guard (no_zombie s slot)
  i ← find_channel_for_handle s pid handle
  side ← find_side (channel_at s i) pid
  let source = port (channel_at s i) side
  guard (not (source.queue_count == 0))
  some (front source capacity, put_channel s i (put_port (channel_at s i) side (dequeue source)))

pub nexus_ipc_poll : Ipc → ℕ → ℕ → ℕ
nexus_ipc_poll s pid handle = elim (find_channel_for_handle s pid handle) [
  | none ↦ 0
  | some i ↦ elim (find_side (channel_at s i) pid) [
    | none ↦ 0
    | some side ↦ (port (channel_at s i) side).queue_count
  ]
]

-- The first handle of the peer that holds the id.
pub forget_channel : Ipc → ℕ → ℕ → Ipc
forget_channel s peer id = elim (find_index (λ h. h == id) (process_at s.table peer).ipc_handles) [
  | none ↦ s
  | some ph ↦ put_handle s peer ph 0
]

-- One round of nexus_ipc_process_terminate, at the handle index `h` of a live handle.
pub give_up : Ipc → ℕ → ℕ → ℕ → Side → Ipc
give_up s slot h id side =
    let c = channel_at s (id - 1) in
    let closed = put_handle (put_channel s (id - 1) (close_side c side)) slot h 0 in
    if both_closed (close_side c side)
    then closed
    else elim (process_get closed.table (port c (other side)).pid) [
      | none ↦ closed
      | some peer ↦ forget_channel closed peer id
    ]

pub terminate_handle : Ipc → ℕ → ℕ → ℕ → Ipc
terminate_handle s pid slot h = elim (channel_id s slot (h + 1)) [
  | none ↦ s
  | some id ↦ elim (find_side (channel_at s (id - 1)) pid) [
    | none ↦ s
    | some side ↦ give_up s slot h id side
  ]
]

-- The handles from index `h` on, `n` of them.
pub terminate_handles : ℕ → Ipc → ℕ → ℕ → ℕ → Ipc
terminate_handles zero s pid slot h = s
terminate_handles (suc n) s pid slot h =
    terminate_handles n (terminate_handle s pid slot h) pid slot (h + 1)

pub nexus_ipc_process_terminate : Ipc → ℕ → Ipc
nexus_ipc_process_terminate s pid = elim (process_get s.table pid) [
  | none ↦ s
  | some slot ↦ terminate_handles max_channels s pid slot 0
]

abbrev count_open : List ℕ → ℕ
count_open [] = 0
count_open (id ∷ ids) = (if id == 0 then 0 else 1) + count_open ids

pub nexus_ipc_open_count : Ipc → ℕ → ℕ
nexus_ipc_open_count s pid = elim (process_get s.table pid) [
  | none ↦ 0
  | some slot ↦ count_open (process_at s.table slot).ipc_handles
]

pub data Call : Type 0 where
  create : (owner_pid peer_pid : ℕ) → Call
  close : (pid handle : ℕ) → Call
  send : (pid handle : ℕ) → (buffer : Option (List ℕ)) → (size : ℕ) → Call
  recv : (pid handle capacity : ℕ) → Call
  terminate : (pid : ℕ) → Call

-- A call that returns 0 leaves the state as it was.
abbrev pub or_same : Ipc → Option Ipc → Ipc
or_same s none = s
or_same s (some s') = s'

abbrev pub state_of {ℓ} : {A : Type ℓ} → Option (A × Ipc) → Option Ipc
state_of none = none
state_of (some (a, s)) = some s

pub apply : Ipc → Call → Ipc
apply s (create owner_pid peer_pid) = or_same s (state_of (nexus_ipc_create s owner_pid peer_pid))
apply s (close pid handle) = or_same s (nexus_ipc_close s pid handle)
apply s (send pid handle buffer size) = or_same s (nexus_ipc_send s pid handle buffer size)
apply s (recv pid handle capacity) = or_same s (state_of (nexus_ipc_recv s pid handle capacity))
apply s (terminate pid) = nexus_ipc_process_terminate s pid

pub run : Ipc → List Call → Ipc
run s [] = s
run s (c ∷ cs) = run (apply s c) cs
