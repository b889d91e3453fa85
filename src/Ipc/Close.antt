-- ===== src/Ipc/Close.antt =====
-- nexus_ipc_close.
use nexus_os.Base.{
  ℕ, ◌+◌, ◌-◌, ◌≡◌, sym, ap, ◌∙◌, ◌≢◌, true, not, some, arith, get_or-set_self, get_or-set_ne,
  >>=-eq-some, subst, guard,
}
use nexus_os.Process.{process_get}
use nexus_os.Channel.{Channel, Side, side0, side1, other, port, find_side}
use nexus_os.Ipc.{
  Ipc, channel_at, no_channel, put_channel, put_handle, close_side, channel_id,
  find_channel_for_handle, nexus_ipc_close,
}
use nexus_os.Ipc.Transfer.{Holds}
use nexus_os.Ipc.Stuck.{channel_id-some}

-- The handle of an open end names its channel.
found_id :
    (s : Ipc) (pid handle slot i : ℕ)
    → process_get s.table pid ≡ some slot
    → find_channel_for_handle s pid handle ≡ some i
    → channel_id s slot handle ≡ some (i + 1)
unfolding find_channel_for_handle
found_id s pid handle slot i live e =
    let (k, at_k, e1) = >>=-eq-some (process_get s.table pid) _ e in
    let (id, named, e2) = >>=-eq-some (channel_id s k handle) _ e1 in
    let (side, _, e3) = >>=-eq-some (find_side (channel_at s (id - 1)) pid) _ e2 in
    let (_, _, e4) = >>=-eq-some (guard (not (port (channel_at s (id - 1)) side).closed)) _ e3 in
    let used = (channel_id-some s k handle id named).1 in
    let same : id ≡ i + 1 = ground (arith, e4, used) in
    let same_slot : k ≡ slot = ground (arith, at_k, live) in
    subst (λ n. channel_id s n handle ≡ some (i + 1)) same_slot (named ∙ ap some same)

-- What closing an end does to its channel.
pub record Closes (s s' : Ipc) (i : ℕ) (side : Side) : Type 0 where
  pub own_closed : (port (channel_at s' i) side).closed ≡ true
  pub peer_same : port (channel_at s' i) (other side) ≡ port (channel_at s i) (other side)
  pub in_use : (channel_at s' i).active ≡ not (port (channel_at s i) (other side)).closed
  pub others : (j : ℕ) → j ≢ i → channel_at s' j ≡ channel_at s j

close_side_lem :
    (c : Channel) (side : Side)
    → c.active ≡ true
    → ((port (close_side c side) side).closed ≡ true)
      × (port (close_side c side) (other side) ≡ port c (other side))
      × ((close_side c side).active ≡ not (port c (other side)).closed)
close_side_lem c side0 a = (ground arith, ground arith, ground arith)
close_side_lem c side1 a = (ground arith, ground arith, ground arith)

active_of_side :
    (c : Channel) (pid : ℕ) (side : Side) → find_side c pid ≡ some side → c.active ≡ true
unfolding find_side
active_of_side c pid side e = ground arith

-- Closing an open handle succeeds: the own end is closed, the peer's end and the other channels
-- stay, and the channel remains in use exactly while the peer has not closed its end.
pub close_lem :
    (s : Ipc) (pid handle i : ℕ) (side : Side)
    → Holds s pid handle i side
    → (s' : Ipc) × (nexus_ipc_close s pid handle ≡ some s') × Closes s s' i side
unfolding nexus_ipc_close
close_lem s pid handle i side h =
    let closed = close_side (channel_at s i) side in
    let named = found_id s pid handle h.slot i h.live h.found in
    let same : i + 1 - 1 ≡ i = omega arith in
    let sided : find_side (channel_at s (i + 1 - 1)) pid ≡ some side =
      ap (λ n. find_side (channel_at s n) pid) same ∙ h.sided in
    let here = get_or-set_self s.channels i closed no_channel h.in_table in
    let (own, peer, used) =
      close_side_lem (channel_at s i) side (active_of_side (channel_at s i) pid side h.sided) in
    (
      put_handle (put_channel s i closed) h.slot (handle - 1) 0,
      rw (h.live, named, sided)
          (ap
            (λ n. some (
              put_handle (put_channel s n (close_side (channel_at s n) side)) h.slot (handle - 1)
                0))
            same),
      record {
        own_closed = ap (λ c. (port c side).closed) here ∙ own;
        peer_same = ap (λ c. port c (other side)) here ∙ peer;
        in_use = ap (λ c. c.active) here ∙ used;
        others = λ j ne. get_or-set_ne s.channels i j closed no_channel (λ e. ne (sym e));
      },
    )
