-- ===== src/Queue.antt =====
-- libraries/src/queue/queue.c and libraries/include/queue.h: the circular queue of five-byte
-- tuples. Pointers are optional addresses into a memory of queues and tuples; `none` is the null
-- pointer. `QContSize` is `cont_size`, and the slot at `head` is never in use.
pub mod Laws
pub mod Clients
use wixel_sdk.Base.{
  ℕ, zero, suc, ◌+◌, ◌%◌, Bool, List, Option, none, some, if◌then◌else◌, not, ◌==◌, get_or, set,
}

abbrev pub cont_size : ℕ
cont_size = 64

abbrev pub tuple_size : ℕ
tuple_size = 5

pub record QTuple : Type 0 where
  pub caller : Option ℕ
  pub bytes : List ℕ

-- The member functions that a queue's fields `Push`, `Pop` and `PushForce` point to.
pub data Method : Type 0 where
  unset q_push q_pop q_push_force : Method

-- A slot's own `caller` field is never read or written: a slot is its bytes.
pub record Queue : Type 0 where
  pub slots : List (List ℕ)
  pub head : ℕ
  pub tail : ℕ
  pub on_push : Method
  pub on_pop : Method
  pub on_push_force : Method

pub record Memory : Type 0 where
  pub queue_at : ℕ → Queue
  pub tuple_at : ℕ → QTuple

abbrev pub write_queue : Memory → ℕ → Queue → Memory
write_queue m a q = record m { queue_at = λ b. if a == b then q else m.queue_at b }

abbrev pub write_tuple : Memory → ℕ → QTuple → Memory
write_tuple m a t = record m { tuple_at = λ b. if a == b then t else m.tuple_at b }

-- `for (i = 0; i < QTupleSize; ++i) dest[i] = src[i];` with `n` rounds left.
pub copy_from : ℕ → ℕ → List ℕ → List ℕ → List ℕ
copy_from zero i dest src = dest
copy_from (suc n) i dest src = copy_from n (i + 1) (set dest i (get_or src i 0)) src

abbrev pub copy_bytes : List ℕ → List ℕ → List ℕ
copy_bytes dest src = copy_from tuple_size 0 dest src

-- The queue a tuple pointer leads to: `0 == p ? 0 : p->caller`.
abbrev pub caller_of : Memory → Option ℕ → Option ℕ
caller_of m none = none
caller_of m (some t) = (m.tuple_at t).caller

abbrev pub next_of : Queue → ℕ
next_of q = (q.tail + 1) % cont_size

abbrev pub store : Queue → List ℕ → Queue
store q bytes = record q {
  slots = set q.slots (next_of q) (copy_bytes (get_or q.slots (next_of q) List.[]) bytes);
  tail = next_of q;
}

-- The body of `QPush` once the queue is known: the status and the queue.
pub enqueue : Queue → List ℕ → ℕ × Queue
enqueue q bytes = if not (next_of q == q.head) then (1, store q bytes) else (0, q)

-- The body of `QPushForce`.
pub enqueue_force : Queue → List ℕ → ℕ × Queue
enqueue_force q bytes =
    if not (next_of q == q.head)
    then (1, store q bytes)
    else (1, record (store q bytes) { head = (q.head + 1) % cont_size })

-- The body of `QPop`: the status, the tuple's bytes and the queue.
pub dequeue : Queue → List ℕ → ℕ × List ℕ × Queue
dequeue q bytes =
    let next = (q.head + 1) % cont_size in
    if not (q.head == q.tail)
    then (1, copy_bytes bytes (get_or q.slots next List.[]), record q { head = next })
    else (0, bytes, q)

-- A push through a tuple pointer by one of the two bodies above.
push_through : (Queue → List ℕ → ℕ × Queue) → Memory → Option ℕ → ℕ × Memory
push_through body m none = (0, m)
push_through body m (some t) = elim (m.tuple_at t).caller [
  | none ↦ (0, m)
  | some a ↦
      let (status, q) = body (m.queue_at a) (m.tuple_at t).bytes in (status, write_queue m a q)
]

pub push : Memory → Option ℕ → ℕ × Memory
unfolding push_through
push m p = push_through enqueue m p

pub push_force : Memory → Option ℕ → ℕ × Memory
unfolding push_through
push_force m p = push_through enqueue_force m p

-- The body of `QPop` through the tuple at `t`, whose caller is given.
pop_from : Memory → ℕ → Option ℕ → ℕ × Memory
pop_from m t none = (0, m)
pop_from m t (some a) =
    let (status, bytes, q) = dequeue (m.queue_at a) (m.tuple_at t).bytes in
    (status, write_tuple (write_queue m a q) t (record (m.tuple_at t) { bytes = bytes }))

pub pop : Memory → Option ℕ → ℕ × Memory
unfolding pop_from
pop m none = (0, m)
pop m (some t) = pop_from m t (m.tuple_at t).caller

unfoldable pub init_queue : Memory → Option ℕ → ℕ × Memory
init_queue m none = (0, m)
init_queue m (some a) = (
  1,
  write_queue m a (record (m.queue_at a) {
    head = 0;
    tail = 0;
    on_push = q_push;
    on_push_force = q_push_force;
    on_pop = q_pop;
  }),
)

unfoldable pub link_queue : Memory → Option ℕ → Option ℕ → ℕ × Memory
link_queue m none t = (0, m)
link_queue m (some a) none = (0, m)
link_queue m (some a) (some t) = (1, write_tuple m t (record (m.tuple_at t) { caller = some a }))
