-- ===== src/Ipc/Delivery.antt =====
-- From nexus_ipc_send of one process to nexus_ipc_recv of the other.
use nexus_os.Base.{
  ℕ, ◌-◌, ◌≤◌, ◌<◌, ◌≡◌, sym, ap, ◌∙◌, Bool, Option, some, List, [], ◌∷◌, ◌++◌, arith, length, take,
  length-set, get_or-set_ne, subst, not, ◌>>=◌, ◌>>◌, guard,
}
use mathlib.Core.Path.{ap₂, fun_ext}
use native.Mathlib.Decide.{ℕ_discrete}
use nexus_os.Process.{process_get}
use nexus_os.Channel.{Port, Side, other, port, put_port, find_side, enqueue}
use nexus_os.Channel.Fifo.{messages, enqueue-IsValid}
use nexus_os.Channel.Fifo
use nexus_os.Channel.Search.{Alike, enqueue-Alike, find_side-put_port, closed-put_port}
use nexus_os.Ipc.{
  Ipc, channel_at, find_channel_for_handle, nexus_ipc_send, nexus_ipc_recv, channel_id,
}
use nexus_os.Ipc.Transfer.{
  Holds, inbox, with_port, channel-with_port, port-with_port, sent, sent_only, send_delivers,
  recv_delivers,
}

-- find_channel_for_handle over what it asks of a channel.
abbrev search : Ipc → (ℕ → Option Side) → (ℕ → Side → Bool) → ℕ → ℕ → Option ℕ
search s side_of closed_at pid handle = do
  slot ← process_get s.table pid
  id ← channel_id s slot handle
  side ← side_of (id - 1)
  guard (not (closed_at (id - 1) side))
  some (id - 1)

module _ (s : Ipc) (i : ℕ) (side : Side) (p : Port) (h : i < length s.channels)
    (alike : Alike p (port (channel_at s i) side)) where
  side_at :
      (pid j : ℕ)
      → find_side (channel_at (with_port s i side p) j) pid ≡ find_side (channel_at s j) pid
  side_at pid j = elim (ℕ_discrete i j) [
    | yes e ↦
        subst
          (λ k.
            find_side (channel_at (with_port s i side p) k) pid ≡ find_side (channel_at s k) pid)
          e
          (ap (λ c. find_side c pid) (channel-with_port s i side p h)
            ∙ find_side-put_port (channel_at s i) side p pid alike)
    | no ne ↦ ap (λ c. find_side c pid) (get_or-set_ne s.channels i j _ _ ne)
  ]

  closed_at :
      (j : ℕ) (sd : Side)
      → (port (channel_at (with_port s i side p) j) sd).closed ≡ (port (channel_at s j) sd).closed
  closed_at j sd = elim (ℕ_discrete i j) [
    | yes e ↦
        subst
          (λ k.
            (port (channel_at (with_port s i side p) k) sd).closed
            ≡ (port (channel_at s k) sd).closed)
          e
          (ap (λ c. (port c sd).closed) (channel-with_port s i side p h)
            ∙ closed-put_port (channel_at s i) side sd p alike)
    | no ne ↦ ap (λ c. (port c sd).closed) (get_or-set_ne s.channels i j _ _ ne)
  ]

  found_with_port :
      (pid handle : ℕ)
      → find_channel_for_handle (with_port s i side p) pid handle
        ≡ find_channel_for_handle s pid handle
  unfolding find_channel_for_handle channel_id
  found_with_port pid handle =
      ap₂ (λ f g. search s f g pid handle) (fun_ext (side_at pid))
        (fun_ext λ j. fun_ext (closed_at j))

  -- A new queue behind a port takes no handle away.
  pub Holds-with_port :
      (pid handle j : ℕ) (sd : Side)
      → Holds s pid handle j sd
      → Holds (with_port s i side p) pid handle j sd
  Holds-with_port pid handle j sd k = record {
    slot = k.slot;
    live = k.live;
    awake = k.awake;
    found = found_with_port pid handle ∙ k.found;
    sided = side_at pid j ∙ k.sided;
    in_table =
        omega (arith, k.in_table, length-set {0} s.channels i (put_port (channel_at s i) side p));
  }

-- A message that one process sends over a channel, at whose other end the inbox is empty and the
-- queue well formed, is what the holder of that end receives: the bytes of the message, cut at the
-- receiver's capacity, which is not 0. The inbox is empty again.
pub recv-send :
    (s s1 : Ipc) (sender receiver handle_s handle_r i : ℕ) (side : Side) (bytes : List ℕ)
    (size capacity : ℕ)
    → Holds s sender handle_s i side
    → Holds s receiver handle_r i (other side)
    → Fifo.IsValid (port (channel_at s i) (other side))
    → inbox s i (other side) ≡ []
    → size ≤ length bytes
    → 0 < capacity
    → nexus_ipc_send s sender handle_s (some bytes) size ≡ some s1
    → (s2 : Ipc) × (nexus_ipc_recv s1 receiver handle_r capacity
        ≡ some (take capacity (take size bytes), s2))
      × (inbox s2 i (other side) ≡ [])
recv-send s s1 sender receiver handle_s handle_r i side bytes size capacity hs hr v nothing given
      space e =
    let target = port (channel_at s i) (other side) in
    let queued = enqueue target size bytes in
    let (ok, same) = sent_only s sender handle_s i side hs bytes size s1 e in
    let same_port = port-with_port s i (other side) queued hs.in_table in
    let holds =
      Holds-with_port s i (other side) queued hs.in_table (enqueue-Alike target size bytes) receiver
        handle_r i (other side) hr in
    let delivered = (send_delivers s sender handle_s i side hs bytes size s1 v given e).0 in
    let waiting = delivered ∙ ap (λ ms. ms ++ (take size bytes ∷ [])) nothing in
    let (s2, got, left, _) =
      recv_delivers (sent s sender handle_s i side hs bytes size) receiver handle_r i (other side)
        holds capacity (take size bytes) []
        (subst Fifo.IsValid (sym same_port) (enqueue-IsValid target size bytes v ok.room)) space
        (ap (λ st. inbox st i (other side)) (sym same) ∙ waiting) in
    (s2, ap (λ st. nexus_ipc_recv st receiver handle_r capacity) same ∙ got, left)
