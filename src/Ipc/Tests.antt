-- ===== src/Ipc/Tests.antt =====
-- Two processes and their channel, at concrete inputs.
use nexus_os.Base.{
  ℕ, zero, suc, ◌≡◌, refl, ◌⊎◌, inl, inr, ◌↔◌, true, some, List, [], ◌∷◌, arith, length, replicate,
  get_or-replicate, find_index,
}
use nexus_os.Process.{no_info, no_memory, Process, ready, process_get, max_channels}
use nexus_os.Channel.{Side, side0, side1, port, find_side, enqueue}
use nexus_os.Channel.Fifo
use nexus_os.Channel.Fifo.{enqueue-IsValid}
use nexus_os.Ipc.{
  Ipc, no_channel, channel_at, put_channel, put_handle, open_channel, max_ipc_channels,
  nexus_ipc_create, nexus_ipc_send, nexus_ipc_recv, nexus_ipc_process_terminate, channel_id,
  handle_at, find_channel_for_handle, find_free_handle, find_free_channel, run, create, send,
}
use nexus_os.Ipc.Transfer.{Holds, Untouched, inbox, sent, send_delivers, recv_delivers}
use nexus_os.Ipc.Accept.{CanSend, send_accepts}
use nexus_os.Ipc.Delivery.{recv-send}
use nexus_os.Ipc.Connect.{IsSized, Connects, nexus_ipc_create-Connects}
use nexus_os.Ipc.Handles.{handles_of}
use nexus_os.Ipc.Stuck.{IsStuck}
use nexus_os.Ipc.Leak.{Linked, terminate_leaks}

abbrev process : ℕ → Process
process n = record {
  pid = n;
  state = ready;
  ipc_handles = replicate max_channels 0;
  memory = no_memory;
  env = [];
  info = no_info;
}

abbrev base : Ipc
base = record {
  channels = replicate max_ipc_channels no_channel;
  ready = true;
  table = record { processes = process 1 ∷ process 2 ∷ []; table_ready = true };
}

base_handles : (slot : ℕ) → length (handles_of base.table slot) ≡ max_channels
base_handles zero = refl
base_handles (suc zero) = refl
base_handles (suc (suc slot)) = refl

base-IsSized : IsSized base
base-IsSized = record { channel_slots = refl; handle_slots = base_handles }

abbrev linked : Ipc
linked = put_handle (put_handle (put_channel base 0 (open_channel no_channel 1 2)) 0 0 1) 1 0 1

creates : nexus_ipc_create base 1 2 ≡ some (1, linked)
unfolding nexus_ipc_create process_get find_index find_free_handle find_free_channel
creates = refl

nexus_ipc_create-Connects_example : Connects base 1 2 1 linked
nexus_ipc_create-Connects_example = nexus_ipc_create-Connects base 1 2 1 linked base-IsSized creates

holder : Holds linked 1 1 0 side0
unfolding process_get find_index find_channel_for_handle channel_id find_side
holder = record {
  slot = 0;
  live = refl;
  awake = refl;
  found = refl;
  sided = refl;
  in_table = omega arith;
}

peer_holder : Holds linked 2 1 0 side1
unfolding process_get find_index find_channel_for_handle channel_id find_side
peer_holder = record {
  slot = 1;
  live = refl;
  awake = refl;
  found = refl;
  sided = refl;
  in_table = omega arith;
}

fresh-IsValid : (side : Side) → Fifo.IsValid (port (channel_at linked 0) side)
fresh-IsValid side0 = record {
  slots = refl;
  buffers = omega arith;
  head_in = omega arith;
  count_in = omega arith;
}
fresh-IsValid side1 = record {
  slots = refl;
  buffers = omega arith;
  head_in = omega arith;
  count_in = omega arith;
}

abbrev greeting : List ℕ
greeting = b'h' ∷ b'i' ∷ []

abbrev greeted : Ipc
greeted = sent linked 1 1 0 side0 holder greeting 2

sends : nexus_ipc_send linked 1 1 (some greeting) 2 ≡ some greeted
unfolding nexus_ipc_send process_get find_index find_channel_for_handle channel_id find_side
sends = refl

send_accepts_example :
    ((s' : Ipc) × (nexus_ipc_send linked 1 1 (some greeting) 2 ≡ some s')) ↔ CanSend linked 1 1 2
send_accepts_example = send_accepts linked 1 1 greeting 2

send_delivers_example : (inbox greeted 0 side1 ≡ greeting ∷ []) × Untouched linked greeted 0 side0
send_delivers_example =
    send_delivers linked 1 1 0 side0 holder greeting 2 greeted (fresh-IsValid side1) (omega arith)
      sends

recv-send_example :
    (s2 : Ipc) × (nexus_ipc_recv greeted 2 1 64 ≡ some (greeting, s2)) × (inbox s2 0 side1 ≡ [])
recv-send_example =
    recv-send linked greeted 1 2 1 1 0 side0 greeting 2 64 holder peer_holder (fresh-IsValid side1)
      refl (omega arith) (omega arith) sends

greeted-IsValid : Fifo.IsValid (port (channel_at greeted 0) side1)
greeted-IsValid =
    enqueue-IsValid (port (channel_at linked 0) side1) 2 greeting (fresh-IsValid side1)
      (omega arith)

greeted_holder : Holds greeted 2 1 0 side1
unfolding process_get find_index find_channel_for_handle channel_id find_side enqueue
greeted_holder = record {
  slot = 1;
  live = refl;
  awake = refl;
  found = refl;
  sided = refl;
  in_table = omega arith;
}

recv_delivers_example :
    (s' : Ipc) × (nexus_ipc_recv greeted 2 1 1 ≡ some (b'h' ∷ [], s'))
    × (inbox s' 0 side1 ≡ [])
    × Untouched greeted s' 0 side0
recv_delivers_example =
    recv_delivers greeted 2 1 0 side1 greeted_holder 1 greeting [] greeted-IsValid (omega arith)
      send_delivers_example.0

only_two : (k j : ℕ) → handle_at linked k j ≡ 1 → ((k ≡ 0) × (j ≡ 0)) ⊎ ((k ≡ 1) × (j ≡ 0))
only_two zero zero e = inl (refl, refl)
only_two (suc zero) zero e = inr (refl, refl)
only_two zero (suc j) e = absurd (omega (arith, get_or-replicate {A = ℕ} 7 j 0))
only_two (suc zero) (suc j) e = absurd (omega (arith, get_or-replicate {A = ℕ} 7 j 0))
only_two (suc (suc k)) j e = absurd (omega (arith, get_or-replicate {A = ℕ} 8 j 0))

both_linked : Linked linked 1 0 0 side0 1 0
unfolding process_get find_index channel_id find_side
both_linked = record {
  live = refl;
  named = refl;
  sided = refl;
  active = refl;
  in_table = omega arith;
  peer_open = refl;
  peer_live = refl;
  peer_holds = refl;
  only = only_two;
  apart = omega arith;
}

terminate_leaks_example :
    IsStuck
      (run (nexus_ipc_process_terminate linked 1) (create 2 3 ∷ send 2 1 (some greeting) 2 ∷ []))
      0
terminate_leaks_example = terminate_leaks both_linked (create 2 3 ∷ send 2 1 (some greeting) 2 ∷ [])
