-- ===== src/Channel/Search.antt =====
-- The search for a process's side does not read the queues.
use nexus_os.Base.{ℕ, ◌≡◌, refl, arith, List}
use nexus_os.Channel.{
  Channel, Port, Side, side0, side1, port, put_port, find_side, enqueue, dequeue,
}

-- Two ports that the search cannot tell apart.
pub record Alike (p q : Port) : Type 0 where
  pub same_pid : p.pid ≡ q.pid
  pub same_closed : p.closed ≡ q.closed

pub enqueue-Alike : (p : Port) (size : ℕ) (bytes : List ℕ) → Alike (enqueue p size bytes) p
unfolding enqueue
enqueue-Alike p size bytes = record { same_pid = refl; same_closed = refl }

pub dequeue-Alike : (p : Port) → Alike (dequeue p) p
unfolding dequeue
dequeue-Alike p = record { same_pid = refl; same_closed = refl }

pub find_side-put_port :
    (c : Channel) (side : Side) (p : Port) (pid : ℕ)
    → Alike p (port c side)
    → find_side (put_port c side p) pid ≡ find_side c pid
unfolding find_side
find_side-put_port c side0 p pid a = ground arith
find_side-put_port c side1 p pid a = ground arith

pub closed-put_port :
    (c : Channel) (side sd : Side) (p : Port)
    → Alike p (port c side)
    → (port (put_port c side p) sd).closed ≡ (port c sd).closed
closed-put_port c side0 side0 p a = a.same_closed
closed-put_port c side0 side1 p a = refl
closed-put_port c side1 side0 p a = refl
closed-put_port c side1 side1 p a = a.same_closed
