-- ===== src/Ipc/Connect.antt =====
-- nexus_ipc_create connects two processes.
use nexus_os.Base.{
  ℕ, ◌+◌, ◌-◌, ◌<◌, ◌≡◌, sym, ap, ◌∙◌, ◌≢◌, true, false, ◌&&◌, not, some, [], arith, leb, ◌==◌,
  length, get_or, set, get_or-set_self, get_or-set_ne, length-set, find_index-some, >>=-eq-some,
  guard, subst,
}
use nexus_os.Process.{is_zombie, process_get, process_at, max_channels, ProcessTable}
use nexus_os.Channel.{Side, side0, side1, port, find_side}
use nexus_os.Channel.Fifo.{messages}
use nexus_os.Ipc.{
  Ipc, channel_at, no_channel, put_channel, put_handle, with_handle, handle_at, no_zombie,
  is_free_handle, is_free_channel, find_free_handle, find_free_channel, find_channel_for_handle,
  channel_id, open_channel, nexus_ipc_create, max_ipc_channels,
}
use nexus_os.Ipc.Transfer.{Holds, inbox}
use nexus_os.Ipc.Handles.{
  handles_of, handles-with_handle_self, process_at-with_handle_ne, process_get-with_handle,
  state-with_handle, process_get-some,
}

-- The arrays have the sizes that the C types give them.
pub record IsSized (s : Ipc) : Type 0 where
  pub channel_slots : length s.channels ≡ max_ipc_channels
  pub handle_slots : (slot : ℕ) → length (handles_of s.table slot) ≡ max_channels

-- What a successful nexus_ipc_create found on its way.
pub record Created (s : Ipc) (owner_pid peer_pid h : ℕ) (s1 : Ipc) : Type 0 where
  pub owner : ℕ
  pub peer : ℕ
  pub owner_slot : ℕ
  pub peer_slot : ℕ
  pub i : ℕ
  pub differ : owner_pid ≢ peer_pid
  pub owner_live : process_get s.table owner_pid ≡ some owner
  pub peer_live : process_get s.table peer_pid ≡ some peer
  pub owner_awake : no_zombie s owner ≡ true
  pub peer_awake : no_zombie s peer ≡ true
  pub owner_free : find_free_handle s owner ≡ some owner_slot
  pub peer_free : find_free_handle s peer ≡ some peer_slot
  pub channel_free : find_free_channel s ≡ some i
  pub handle : h ≡ owner_slot + 1
  pub after :
      s1
      ≡ put_handle
          (put_handle
            (put_channel s i (open_channel (channel_at s i) owner_pid peer_pid))
            owner
            owner_slot
            (i + 1))
          peer
          peer_slot
          (i + 1)

pub create-Created :
    (s : Ipc) (owner_pid peer_pid h : ℕ) (s1 : Ipc)
    → nexus_ipc_create s owner_pid peer_pid ≡ some (h, s1)
    → Created s owner_pid peer_pid h s1
unfolding nexus_ipc_create
create-Created s owner_pid peer_pid h s1 e =
    let distinct =
      s.ready && not (owner_pid == 0) && not (peer_pid == 0) && not (owner_pid == peer_pid) in
    let (_, checked, e1) = >>=-eq-some (guard distinct) _ e in
    let (owner, owner_live, e2) = >>=-eq-some (process_get s.table owner_pid) _ e1 in
    let (peer, peer_live, e3) = >>=-eq-some (process_get s.table peer_pid) _ e2 in
    let (_, awake, e4) = >>=-eq-some (guard (no_zombie s owner && no_zombie s peer)) _ e3 in
    let (owner_slot, owner_free, e5) = >>=-eq-some (find_free_handle s owner) _ e4 in
    let (peer_slot, peer_free, e6) = >>=-eq-some (find_free_handle s peer) _ e5 in
    let (i, channel_free, e7) = >>=-eq-some (find_free_channel s) _ e6 in
    record {
      owner = owner;
      peer = peer;
      owner_slot = owner_slot;
      peer_slot = peer_slot;
      i = i;
      differ = ground arith;
      owner_live = owner_live;
      peer_live = peer_live;
      owner_awake = ground arith;
      peer_awake = ground arith;
      owner_free = owner_free;
      peer_free = peer_free;
      channel_free = channel_free;
      handle = ground arith;
      after = ground arith;
    }

-- A handle of a live process that names one of its open channels is found.
pub find_channel_for_handle-some :
    (s : Ipc) (pid slot h i : ℕ) (side : Side)
    → process_get s.table pid ≡ some slot
    → h < max_channels
    → handle_at s slot h ≡ i + 1
    → i < max_ipc_channels
    → find_side (channel_at s i) pid ≡ some side
    → (port (channel_at s i) side).closed ≡ false
    → find_channel_for_handle s pid (h + 1) ≡ some i
unfolding find_channel_for_handle channel_id
find_channel_for_handle-some s pid slot h i side live hb named ib sided opened =
    let eh : h + 1 - 1 ≡ h = omega arith in
    let ei : i + 1 - 1 ≡ i = omega arith in
    let ok : (not (h + 1 == 0) && leb (h + 1) max_channels) ≡ true = ground arith in
    let ok' : (not (i + 1 == 0) && leb (i + 1) max_ipc_channels) ≡ true = ground arith in
    rw (live, eh, named, ok, ok', ei, sided, opened)

module _ {s : Ipc} {owner_pid peer_pid h : ℕ} {s1 : Ipc} (sized : IsSized s)
    (c : Created s owner_pid peer_pid h s1) where
  opened : Ipc
  opened = put_channel s c.i (open_channel (channel_at s c.i) owner_pid peer_pid)

  connected : Ipc
  connected =
      put_handle (put_handle opened c.owner c.owner_slot (c.i + 1)) c.peer c.peer_slot (c.i + 1)

  owner_in : (c.owner < length s.table.processes) × ((process_at s.table c.owner).pid ≡ owner_pid)
  owner_in = process_get-some s.table owner_pid c.owner c.owner_live

  peer_in : (c.peer < length s.table.processes) × ((process_at s.table c.peer).pid ≡ peer_pid)
  peer_in = process_get-some s.table peer_pid c.peer c.peer_live

  slots_differ : c.owner ≢ c.peer
  slots_differ e = c.differ (sym owner_in.1 ∙ ap (λ k. (process_at s.table k).pid) e ∙ peer_in.1)

  owner_slot_in : c.owner_slot < max_channels
  unfolding find_free_handle
  owner_slot_in =
      let found =
        find_index-some is_free_handle (handles_of s.table c.owner) 0 c.owner_slot c.owner_free in
      omega (arith, found.0, sized.handle_slots c.owner)

  peer_slot_in : c.peer_slot < max_channels
  unfolding find_free_handle
  peer_slot_in =
      let found =
        find_index-some is_free_handle (handles_of s.table c.peer) 0 c.peer_slot c.peer_free in
      omega (arith, found.0, sized.handle_slots c.peer)

  channel_was_free : (c.i < length s.channels) × ((channel_at s c.i).active ≡ false)
  unfolding find_free_channel
  channel_was_free =
      let found = find_index-some is_free_channel s.channels no_channel c.i c.channel_free in
      (found.0, ground arith)

  channel_now : channel_at connected c.i ≡ open_channel (channel_at s c.i) owner_pid peer_pid
  unfolding connected opened
  channel_now = get_or-set_self s.channels c.i _ no_channel channel_was_free.0

  owner_side : find_side (channel_at connected c.i) owner_pid ≡ some side0
  unfolding find_side
  owner_side = rw channel_now (ground arith)

  peer_side : find_side (channel_at connected c.i) peer_pid ≡ some side1
  unfolding find_side
  peer_side = rw channel_now (ground (arith, c.differ))

  same_process : (pid : ℕ) → process_get connected.table pid ≡ process_get s.table pid
  unfolding connected opened
  same_process pid =
      process_get-with_handle (with_handle s.table c.owner c.owner_slot (c.i + 1)) c.peer
        c.peer_slot (c.i + 1) pid
      ∙ process_get-with_handle s.table c.owner c.owner_slot (c.i + 1) pid

  -- The table after the first of the two handle writes.
  abbrev half : ProcessTable
  half = with_handle s.table c.owner c.owner_slot (c.i + 1)

  peer_in_half : c.peer < length half.processes
  peer_in_half = omega (arith, peer_in.0, length-set {0} s.table.processes c.owner _)

  owner_handle : handle_at connected c.owner c.owner_slot ≡ c.i + 1
  unfolding connected opened
  owner_handle =
      ap (λ p. get_or p.ipc_handles c.owner_slot 0)
        (process_at-with_handle_ne half c.peer c.peer_slot (c.i + 1) c.owner
          (λ e. slots_differ (sym e)))
      ∙ ap (λ hs. get_or hs c.owner_slot 0)
          (handles-with_handle_self s.table c.owner c.owner_slot (c.i + 1) owner_in.0)
      ∙ get_or-set_self (handles_of s.table c.owner) c.owner_slot (c.i + 1) 0
          (omega (arith, owner_slot_in, sized.handle_slots c.owner))

  peer_handle : handle_at connected c.peer c.peer_slot ≡ c.i + 1
  unfolding connected opened
  peer_handle =
      ap (λ hs. get_or hs c.peer_slot 0)
        (handles-with_handle_self half c.peer c.peer_slot (c.i + 1) peer_in_half
          ∙ ap (λ p. set p.ipc_handles c.peer_slot (c.i + 1))
              (process_at-with_handle_ne s.table c.owner c.owner_slot (c.i + 1) c.peer
                slots_differ))
      ∙ get_or-set_self (handles_of s.table c.peer) c.peer_slot (c.i + 1) 0
          (omega (arith, peer_slot_in, sized.handle_slots c.peer))

  same_state : (k : ℕ) → no_zombie connected k ≡ no_zombie s k
  unfolding connected opened
  same_state k =
      ap (λ st. not (is_zombie st))
        (state-with_handle half c.peer c.peer_slot (c.i + 1) k peer_in_half
          ∙ state-with_handle s.table c.owner c.owner_slot (c.i + 1) k owner_in.0)

  in_channels : c.i < length connected.channels
  unfolding connected opened
  in_channels = omega (arith, channel_was_free.0, length-set {0} s.channels c.i _)

  i_in_range : c.i < max_ipc_channels
  i_in_range = omega (arith, channel_was_free.0, sized.channel_slots)

  owner-Holds : Holds connected owner_pid (c.owner_slot + 1) c.i side0
  owner-Holds = record {
    slot = c.owner;
    live = same_process owner_pid ∙ c.owner_live;
    awake = same_state c.owner ∙ c.owner_awake;
    found =
        find_channel_for_handle-some connected owner_pid c.owner c.owner_slot c.i side0
          (same_process owner_pid ∙ c.owner_live) owner_slot_in owner_handle i_in_range owner_side
          (ap (λ ch. ch.port0.closed) channel_now);
    sided = owner_side;
    in_table = in_channels;
  }

  peer-Holds : Holds connected peer_pid (c.peer_slot + 1) c.i side1
  peer-Holds = record {
    slot = c.peer;
    live = same_process peer_pid ∙ c.peer_live;
    awake = same_state c.peer ∙ c.peer_awake;
    found =
        find_channel_for_handle-some connected peer_pid c.peer c.peer_slot c.i side1
          (same_process peer_pid ∙ c.peer_live) peer_slot_in peer_handle i_in_range peer_side
          (ap (λ ch. ch.port1.closed) channel_now);
    sided = peer_side;
    in_table = in_channels;
  }

-- What a successful nexus_ipc_create gives the two processes.
pub record Connects (s : Ipc) (owner_pid peer_pid h : ℕ) (s1 : Ipc) : Type 0 where
  pub i : ℕ
  pub peer_handle : ℕ
  pub was_free : (channel_at s i).active ≡ false
  pub owner_end : Holds s1 owner_pid h i side0
  pub peer_end : Holds s1 peer_pid peer_handle i side1
  pub owner_empty : inbox s1 i side0 ≡ []
  pub peer_empty : inbox s1 i side1 ≡ []
  pub others : (j : ℕ) → j ≢ i → channel_at s1 j ≡ channel_at s j

-- With tables of their full sizes, a successful nexus_ipc_create takes a channel that was free:
-- the handle that it returns is the owner's open end of it, the peer has a handle for the other
-- end, both inboxes are empty, and the other channels are as they were.
pub nexus_ipc_create-Connects :
    (s : Ipc) (owner_pid peer_pid h : ℕ) (s1 : Ipc)
    → IsSized s
    → nexus_ipc_create s owner_pid peer_pid ≡ some (h, s1)
    → Connects s owner_pid peer_pid h s1
unfolding connected opened
nexus_ipc_create-Connects s owner_pid peer_pid h s1 sized e =
    subst (Connects s owner_pid peer_pid h) (sym c.after) (
      subst (λ k. Connects s owner_pid peer_pid k (connected sized c)) (sym c.handle)
        (record {
          i = c.i;
          peer_handle = c.peer_slot + 1;
          was_free = (channel_was_free sized c).1;
          owner_end = owner-Holds sized c;
          peer_end = peer-Holds sized c;
          owner_empty = ap (λ ch. messages ch.port0) (channel_now sized c);
          peer_empty = ap (λ ch. messages ch.port1) (channel_now sized c);
          others = λ j ne. get_or-set_ne s.channels c.i j _ no_channel (λ eq. ne (sym eq));
        }))
  where
    c : Created s owner_pid peer_pid h s1
    c = create-Created s owner_pid peer_pid h s1 e
