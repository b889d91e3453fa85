-- ===== src/Channel.antt =====
-- kernel/core/ipc/ipc.c: one channel. Each array of two, indexed by the side, is a field of the
-- record `Port`; a channel has a port for either side.
pub mod Fifo
pub mod Search
use nexus_os.Base.{
  ℕ, ◌+◌, ◌-◌, ◌%◌, ◌^◌, Bool, true, false, Option, none, some, List, ◌==◌, if◌then◌else◌, get_or,
  set, overwrite, take, replicate, min,
}

-- NEXUS_CHANNEL_MESSAGE_MAX and NEXUS_CHANNEL_QUEUE_DEPTH
abbrev pub message_max : ℕ
message_max = 256

abbrev pub queue_depth : ℕ
queue_depth = 8

-- `ipc_message_t`; `payload` is its field `data`.
pub record Message : Type 0 where
  pub size : ℕ
  pub payload : List ℕ

abbrev pub no_message : Message
no_message = record { size = 0; payload = replicate message_max 0 }

pub record Port : Type 0 where
  pub closed : Bool
  pub pid : ℕ
  pub queue_head : ℕ
  pub queue_count : ℕ
  pub queue : List Message

-- `ipc_channel_t`
pub record Channel : Type 0 where
  pub active : Bool
  pub port0 : Port
  pub port1 : Port

pub data Side : Type 0 where
  side0 side1 : Side

-- side ^ 1
abbrev pub other : Side → Side
other side0 = side1
other side1 = side0

abbrev pub port : Channel → Side → Port
port c side0 = c.port0
port c side1 = c.port1

abbrev pub put_port : Channel → Side → Port → Channel
put_port c side0 p = record c { port0 = p }
put_port c side1 p = record c { port1 = p }

unfoldable pub find_side : Channel → ℕ → Option Side
find_side c pid =
    if c.active
    then if c.port0.pid == pid then some side0 else if c.port1.pid == pid then some side1 else none
    else none

abbrev pub both_closed : Channel → Bool
both_closed c = elim c.port0.closed [ true ↦ c.port1.closed | false ↦ false ]

-- The port of a channel that nexus_ipc_create has just set up; the slots keep what they held.
abbrev pub reset_port : Port → ℕ → Port
reset_port p pid = record p { closed = false; pid = pid; queue_head = 0; queue_count = 0 }

-- The writes of nexus_ipc_send to the target's queue.
unfoldable pub enqueue : Port → ℕ → List ℕ → Port
enqueue p size bytes =
    let head = (p.queue_head + p.queue_count) % queue_depth in
    record p {
      queue = set p.queue head (record {
        size = size % 2 ^ 16;
        payload = overwrite size bytes (get_or p.queue head no_message).payload;
      });
      queue_count = (p.queue_count + 1) % 2 ^ 32;
    }

-- What nexus_ipc_recv copies out: the bytes, as many as fit.
pub front : Port → ℕ → List ℕ
front p space =
    let message = get_or p.queue p.queue_head no_message in
    take (min message.size space) message.payload

-- The writes of nexus_ipc_recv; it runs them only where queue_count is not 0.
unfoldable pub dequeue : Port → Port
dequeue p = record p {
  queue_head = (p.queue_head + 1) % queue_depth;
  queue_count = p.queue_count - 1;
}
