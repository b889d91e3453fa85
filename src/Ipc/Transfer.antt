-- ===== src/Ipc/Transfer.antt =====
-- nexus_ipc_send and nexus_ipc_recv over the FIFOs of a channel.
use nexus_os.Base.{
  ℕ, suc, ◌≤◌, ◌<◌, ◌≡◌, refl, sym, ap, ◌∙◌, ◌≢◌, true, false, not, ◌&&◌, none, some, List, [], ◌∷◌,
  ◌++◌, arith, ltb, leb, ◌==◌, length, take, get_or-set_self, get_or-set_ne, subst, ◌>>◌, guard,
}
use nexus_os.Process.{process_get}
use nexus_os.Channel.{
  Port, Side, side0, side1, other, port, put_port, find_side, enqueue, front, dequeue, message_max,
  queue_depth,
}
use nexus_os.Channel.Fifo.{messages, length-messages, messages-enqueue, messages-dequeue}
use nexus_os.Channel.Fifo
use nexus_os.Ipc.{
  Ipc, channel_at, put_channel, no_zombie, find_channel_for_handle, nexus_ipc_send, nexus_ipc_recv,
  nexus_ipc_poll,
}

-- A live process holds an open handle: it is one side of channel `i`.
pub record Holds (s : Ipc) (pid handle i : ℕ) (side : Side) : Type 0 where
  pub slot : ℕ
  pub live : process_get s.table pid ≡ some slot
  pub awake : no_zombie s slot ≡ true
  pub found : find_channel_for_handle s pid handle ≡ some i
  pub sided : find_side (channel_at s i) pid ≡ some side
  pub in_table : i < length s.channels

-- The byte strings that wait for a side of a channel, oldest first.
abbrev pub inbox : Ipc → ℕ → Side → List (List ℕ)
inbox s i side = messages (port (channel_at s i) side)

-- What a transfer between the sides of channel `i` leaves alone: the port of `side`, all of the other
-- port but its queue, the use of the channel, the other channels, the processes.
pub record Untouched (s s' : Ipc) (i : ℕ) (side : Side) : Type 0 where
  pub own : port (channel_at s' i) side ≡ port (channel_at s i) side
  pub far_closed :
      (port (channel_at s' i) (other side)).closed ≡ (port (channel_at s i) (other side)).closed
  pub far_pid : (port (channel_at s' i) (other side)).pid ≡ (port (channel_at s i) (other side)).pid
  pub active : (channel_at s' i).active ≡ (channel_at s i).active
  pub others : (j : ℕ) → j ≢ i → channel_at s' j ≡ channel_at s j
  pub processes : s'.table ≡ s.table

-- The state with a new port.
abbrev pub with_port : Ipc → ℕ → Side → Port → Ipc
with_port s i side p = put_channel s i (put_port (channel_at s i) side p)

pub channel-with_port :
    (s : Ipc) (i : ℕ) (side : Side) (p : Port)
    → i < length s.channels
    → channel_at (with_port s i side p) i ≡ put_port (channel_at s i) side p
channel-with_port s i side p h = get_or-set_self s.channels i _ _ h

pub port-with_port :
    (s : Ipc) (i : ℕ) (side : Side) (p : Port)
    → i < length s.channels
    → port (channel_at (with_port s i side p) i) side ≡ p
port-with_port s i side0 p h = ap (λ c. port c side0) (channel-with_port s i side0 p h)
port-with_port s i side1 p h = ap (λ c. port c side1) (channel-with_port s i side1 p h)

pub with_port-Untouched :
    (s : Ipc) (i : ℕ) (side : Side) (p : Port)
    → i < length s.channels
    → p.closed ≡ (port (channel_at s i) (other side)).closed
    → p.pid ≡ (port (channel_at s i) (other side)).pid
    → Untouched s (with_port s i (other side) p) i side
with_port-Untouched s i side0 p h closed pid = record {
  own = ap (λ c. port c side0) (channel-with_port s i side1 p h);
  far_closed = ap (λ q. q.closed) (port-with_port s i side1 p h) ∙ closed;
  far_pid = ap (λ q. q.pid) (port-with_port s i side1 p h) ∙ pid;
  active = ap (λ c. c.active) (channel-with_port s i side1 p h);
  others = λ j ne. get_or-set_ne s.channels i j _ _ (λ e. ne (sym e));
  processes = refl;
}
with_port-Untouched s i side1 p h closed pid = record {
  own = ap (λ c. port c side1) (channel-with_port s i side0 p h);
  far_closed = ap (λ q. q.closed) (port-with_port s i side0 p h) ∙ closed;
  far_pid = ap (λ q. q.pid) (port-with_port s i side0 p h) ∙ pid;
  active = ap (λ c. c.active) (channel-with_port s i side0 p h);
  others = λ j ne. get_or-set_ne s.channels i j _ _ (λ e. ne (sym e));
  processes = refl;
}

other-other : (side : Side) → other (other side) ≡ side
other-other side0 = refl
other-other side1 = refl

enqueue_keeps :
    (p : Port) (size : ℕ) (bytes : List ℕ)
    → ((enqueue p size bytes).closed ≡ p.closed) × ((enqueue p size bytes).pid ≡ p.pid)
unfolding enqueue
enqueue_keeps p size bytes = (refl, refl)

dequeue_keeps : (p : Port) → ((dequeue p).closed ≡ p.closed) × ((dequeue p).pid ≡ p.pid)
unfolding dequeue
dequeue_keeps p = (refl, refl)

-- When a message is taken: its size is in range, the receiver's end open and its queue not full.
pub record IsAccepted (s : Ipc) (i : ℕ) (side : Side) (size : ℕ) : Type 0 where
  pub some_bytes : 0 < size
  pub small : size ≤ message_max
  pub open_end : (port (channel_at s i) (other side)).closed ≡ false
  pub room : (port (channel_at s i) (other side)).queue_count < queue_depth

module _ (s : Ipc) (pid handle i : ℕ) (side : Side) (h : Holds s pid handle i side) where
  abbrev pub sent : List ℕ → ℕ → Ipc
  sent bytes size =
      with_port s i (other side) (enqueue (port (channel_at s i) (other side)) size bytes)

  send_eq :
      (bytes : List ℕ) (size : ℕ)
      → nexus_ipc_send s pid handle (some bytes) size ≡ (do
        guard (not (size == 0) && leb size message_max)
        guard (
            not (port (channel_at s i) (other side)).closed
            && ltb (port (channel_at s i) (other side)).queue_count queue_depth)
        some (sent bytes size))
  unfolding nexus_ipc_send
  send_eq bytes size = rw (h.live, h.awake, h.found, h.sided) (ground arith)

  pub sent_only :
      (bytes : List ℕ) (size : ℕ) (s' : Ipc)
      → nexus_ipc_send s pid handle (some bytes) size ≡ some s'
      → IsAccepted s i side size × (s' ≡ sent bytes size)
  sent_only bytes size s' e =
      let taken = sym (send_eq bytes size) ∙ e in
      (
        record {
          some_bytes = ground arith;
          small = ground arith;
          open_end = ground arith;
          room = ground arith;
        },
        ground arith,
      )

  -- If the peer's queue is well formed and the buffer has the stated size, a message that is taken
  -- over an open handle goes to the end of the peer's inbox with its bytes; the sender's own port,
  -- the other channels and the processes stay as they are.
  pub send_delivers :
      (bytes : List ℕ) (size : ℕ) (s' : Ipc)
      → Fifo.IsValid (port (channel_at s i) (other side))
      → size ≤ length bytes
      → nexus_ipc_send s pid handle (some bytes) size ≡ some s'
      → (inbox s' i (other side) ≡ inbox s i (other side) ++ (take size bytes ∷ []))
        × Untouched s s' i side
  send_delivers bytes size s' v given e =
      let (ok, same) = sent_only bytes size s' e in
      let target = port (channel_at s i) (other side) in
      rw same (
        ap messages (port-with_port s i (other side) (enqueue target size bytes) h.in_table)
            ∙ messages-enqueue target size bytes v ok.room ok.small given,
        with_port-Untouched s i side (enqueue target size bytes) h.in_table
            (enqueue_keeps target size bytes).0 (enqueue_keeps target size bytes).1,
      )

  abbrev received : Ipc
  received = with_port s i side (dequeue (port (channel_at s i) side))

  recv_eq :
      (capacity : ℕ)
      → nexus_ipc_recv s pid handle capacity ≡ (do
        guard (not (capacity == 0))
        guard (not ((port (channel_at s i) side).queue_count == 0))
        some (front (port (channel_at s i) side) capacity, received))
  unfolding nexus_ipc_recv
  recv_eq capacity = rw (h.live, h.awake, h.found, h.sided) (ground arith)

  -- With room for a byte and a well-formed queue, nexus_ipc_recv over an open handle gives the
  -- oldest message of the inbox, cut at the capacity, and removes it; the peer's port, the other
  -- channels and the processes stay.
  pub recv_delivers :
      (capacity : ℕ) (bytes : List ℕ) (rest : List (List ℕ))
      → Fifo.IsValid (port (channel_at s i) side)
      → 0 < capacity
      → inbox s i side ≡ bytes ∷ rest
      → (s' : Ipc) × (nexus_ipc_recv s pid handle capacity ≡ some (take capacity bytes, s'))
        × (inbox s' i side ≡ rest)
        × Untouched s s' i (other side)
  recv_delivers capacity bytes rest v space waiting = (
    received,
    ground (arith, recv_eq capacity, given, listed, waiting),
    ap messages (port-with_port s i side (dequeue source) h.in_table)
        ∙ ground (arith, listed, waiting),
    subst (λ sd. Untouched s (with_port s i sd (dequeue source)) i (other side)) (other-other side)
        (with_port-Untouched s i (other side) (dequeue source) h.in_table
          ((dequeue_keeps source).0
            ∙ ap (λ sd. (port (channel_at s i) sd).closed) (sym (other-other side)))
          ((dequeue_keeps source).1
            ∙ ap (λ sd. (port (channel_at s i) sd).pid) (sym (other-other side)))),
  )
    where
      source : Port
      source = port (channel_at s i) side

      count : source.queue_count ≡ suc (length rest)
      count = sym (length-messages source) ∙ ap length waiting

      split :
          (b : List ℕ) × (messages source ≡ b ∷ messages (dequeue source))
          × (front source capacity ≡ take capacity b)
      split = messages-dequeue source (length rest) capacity v count

      listed : messages source ≡ split.0 ∷ messages (dequeue source)
      listed = split.1

      given : front source capacity ≡ take capacity split.0
      given = split.2

  -- An empty inbox gives nothing.
  pub recv_empty :
      (capacity : ℕ) → inbox s i side ≡ [] → nexus_ipc_recv s pid handle capacity ≡ none
  recv_empty capacity nothing = ground (
    arith,
    recv_eq capacity,
    sym (length-messages (port (channel_at s i) side)) ∙ ap length nothing,
  )

  -- nexus_ipc_poll gives the number of messages in the inbox.
  pub poll-length : nexus_ipc_poll s pid handle ≡ length (inbox s i side)
  unfolding nexus_ipc_poll
  poll-length =
      rw (h.found, h.sided, nexus_ipc_poll) (sym (length-messages (port (channel_at s i) side)))
