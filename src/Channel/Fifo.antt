-- ===== src/Channel/Fifo.antt =====
-- A port's queue is a FIFO of byte strings.
use nexus_os.Base.{
  ℕ, zero, suc, ◌+◌, ◌%◌, ◌^◌, ◌≤◌, ◌<◌, ◌≡◌, refl, ap, ◌∙◌, List, [], ◌∷◌, ◌++◌, map, arith,
  length, length-set, length-overwrite, get_or, set, overwrite, take, take-overwrite, min,
}
use nexus_os.Base.Ring.{around, around_start, around-set, length-around}
use nexus_os.Channel.{
  Message, no_message, message_max, queue_depth, Port, reset_port, enqueue, front, dequeue,
}

-- Every slot has the bytes of `ipc_message_t`.
abbrev pub AreSlots : List Message → Type 0
AreSlots [] = Unit
AreSlots (m ∷ ms) = (length m.payload ≡ message_max) × AreSlots ms

get_or-AreSlots :
    (ms : List Message) (i : ℕ)
    → AreSlots ms
    → length (get_or ms i no_message).payload ≡ message_max
get_or-AreSlots [] i h = refl
get_or-AreSlots (m ∷ ms) zero h = h.0
get_or-AreSlots (m ∷ ms) (suc i) h = get_or-AreSlots ms i h.1

set-AreSlots :
    (ms : List Message) (i : ℕ) (m : Message)
    → AreSlots ms
    → length m.payload ≡ message_max
    → AreSlots (set ms i m)
set-AreSlots [] i m h k = tt
set-AreSlots (x ∷ ms) zero m h k = (k, h.1)
set-AreSlots (x ∷ ms) (suc i) m h k = (h.0, set-AreSlots ms i m h.1 k)

pub record IsValid (p : Port) : Type 0 where
  pub slots : length p.queue ≡ queue_depth
  pub buffers : AreSlots p.queue
  pub head_in : p.queue_head < queue_depth
  pub count_in : p.queue_count ≤ queue_depth

-- The bytes that a slot stands for.
abbrev pub bytes_of : Message → List ℕ
bytes_of m = take m.size m.payload

-- Oldest first.
abbrev pub messages : Port → List (List ℕ)
messages p = map bytes_of (around no_message queue_depth p.queue p.queue_head p.queue_count)

length-map {ℓ κ} :
    {A : Type ℓ} {B : Type κ} (f : A → B) (xs : List A) → length (map f xs) ≡ length xs
length-map f [] = refl
length-map f (x ∷ xs) = ap suc (length-map f xs)

pub length-messages : (p : Port) → length (messages p) ≡ p.queue_count
length-messages p =
    length-map bytes_of (around no_message queue_depth p.queue p.queue_head p.queue_count)
    ∙ length-around no_message queue_depth p.queue p.queue_head p.queue_count

map-snoc {ℓ κ} :
    {A : Type ℓ} {B : Type κ} (f : A → B) (xs : List A) (x : A)
    → map f (xs ++ (x ∷ [])) ≡ map f xs ++ (f x ∷ [])
map-snoc f [] x = refl
map-snoc f (y ∷ xs) x = ap (◌∷◌ (f y)) (map-snoc f xs x)

pub reset_port-IsValid :
    (p : Port) (pid : ℕ)
    → length p.queue ≡ queue_depth
    → AreSlots p.queue
    → IsValid (reset_port p pid)
reset_port-IsValid p pid h k = record {
  slots = h;
  buffers = k;
  head_in = omega arith;
  count_in = omega arith;
}

pub enqueue-IsValid :
    (p : Port) (size : ℕ) (bytes : List ℕ)
    → IsValid p
    → p.queue_count < queue_depth
    → IsValid (enqueue p size bytes)
unfolding enqueue
enqueue-IsValid p size bytes v room =
    let head = (p.queue_head + p.queue_count) % queue_depth in
    let old = get_or p.queue head no_message in
    record {
      slots = length-set p.queue head _ ∙ v.slots;
      buffers =
          set-AreSlots p.queue head _ v.buffers
            (length-overwrite size bytes old.payload ∙ get_or-AreSlots p.queue head v.buffers);
      head_in = v.head_in;
      count_in = omega arith;
    }

pub dequeue-IsValid : (p : Port) → IsValid p → IsValid (dequeue p)
unfolding dequeue
dequeue-IsValid p v = record {
  slots = v.slots;
  buffers = v.buffers;
  head_in = omega arith;
  count_in = omega arith;
}

pub messages-enqueue :
    (p : Port) (size : ℕ) (bytes : List ℕ)
    → IsValid p
    → p.queue_count < queue_depth
    → size ≤ message_max
    → size ≤ length bytes
    → messages (enqueue p size bytes) ≡ messages p ++ (take size bytes ∷ [])
unfolding enqueue
messages-enqueue p size bytes v room small given =
    ap (λ n. map bytes_of (around no_message queue_depth q.queue p.queue_head n))
      {y = suc p.queue_count} (omega arith)
    ∙ ap (map bytes_of) (
        around-set no_message queue_depth p.queue p.queue_head p.queue_count m
          (omega (arith, v.slots)) room)
    ∙ map-snoc bytes_of (around no_message queue_depth p.queue p.queue_head p.queue_count) m
    ∙ ap (λ b. messages p ++ (b ∷ [])) stored
  where
    head : ℕ
    head = (p.queue_head + p.queue_count) % queue_depth

    m : Message
    m = record {
      size = size % 2 ^ 16;
      payload = overwrite size bytes (get_or p.queue head no_message).payload;
    }

    q : Port
    q = enqueue p size bytes

    stored : bytes_of m ≡ take size bytes
    stored =
        ap (λ n. take n m.payload) {y = size} (omega arith)
        ∙ take-overwrite size bytes (get_or p.queue head no_message).payload given
            (omega (arith, get_or-AreSlots p.queue head v.buffers))

take-take {ℓ} : {A : Type ℓ} (m n : ℕ) (xs : List A) → take (min m n) xs ≡ take n (take m xs)
take-take zero zero xs = refl
take-take zero (suc n) xs = let e : min 0 (suc n) ≡ 0 = omega arith in rw e
take-take (suc m) zero xs = let e : min (suc m) 0 ≡ 0 = omega arith in rw e
take-take (suc m) (suc n) [] = let e : min (suc m) (suc n) ≡ suc (min m n) = omega arith in rw e
take-take (suc m) (suc n) (x ∷ xs) =
    let e : min (suc m) (suc n) ≡ suc (min m n) = omega arith in
    rw e (ap (◌∷◌ x) (take-take m n xs))

pub messages-dequeue :
    (p : Port) (n space : ℕ)
    → IsValid p
    → p.queue_count ≡ suc n
    → (bytes : List ℕ) × (messages p ≡ bytes ∷ messages (dequeue p))
      × (front p space ≡ take space bytes)
unfolding dequeue front
messages-dequeue p n space v e = (
  bytes_of m,
  listed,
  ap (λ i. front_at (get_or p.queue i no_message)) (omega arith) ∙ take-take m.size space m.payload,
)
  where
    m : Message
    m = get_or p.queue (p.queue_head % queue_depth) no_message

    front_at : Message → List ℕ
    front_at x = take (min x.size space) x.payload

    listed : messages p ≡ bytes_of m ∷ messages (dequeue p)
    listed =
        ap (λ k. map bytes_of (around no_message queue_depth p.queue p.queue_head k)) e
        ∙ ap (λ xs. bytes_of m ∷ map bytes_of xs)
            (around_start no_message queue_depth p.queue (suc p.queue_head)
                ((p.queue_head + 1) % queue_depth) n (omega arith)
              ∙ ap (around no_message queue_depth p.queue ((p.queue_head + 1) % queue_depth))
                  (omega arith))
