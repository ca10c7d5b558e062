-- ===== src/Stack.antt =====
-- libraries/src/stack/stack.c and libraries/include/stack.h: a stack of five-byte tuples. Pointers
-- are optional addresses into a memory of stacks and tuples; `none` is the null pointer. `SContSize`
-- is `cont_size`.
pub mod Laws
use wixel_sdk.Base.{
  ℕ, zero, suc, ◌+◌, ◌-◌, List, Option, none, some, if◌then◌else◌, ◌==◌, ltb, get_or, set,
}

abbrev pub cont_size : ℕ
cont_size = 64

abbrev pub tuple_size : ℕ
tuple_size = 5

pub record STuple : Type 0 where
  pub caller : Option ℕ
  pub bytes : List ℕ

-- The member functions that a stack's fields `Push` and `Pop` point to.
pub data Method : Type 0 where
  unset s_push s_pop : Method

-- A slot's own `caller` field is never read or written: a slot is its bytes.
pub record Stack : Type 0 where
  pub slots : List (List ℕ)
  pub top_idx : ℕ
  pub on_push : Method
  pub on_pop : Method

pub record Memory : Type 0 where
  pub stack_at : ℕ → Stack
  pub tuple_at : ℕ → STuple

abbrev pub write_stack : Memory → ℕ → Stack → Memory
write_stack m a s = record m { stack_at = λ b. if a == b then s else m.stack_at b }

abbrev pub write_tuple : Memory → ℕ → STuple → Memory
write_tuple m a t = record m { tuple_at = λ b. if a == b then t else m.tuple_at b }

-- `for (i = 0; i < STupleSize; ++i) dest[i] = src[i];` with `n` rounds left.
pub copy_from : ℕ → ℕ → List ℕ → List ℕ → List ℕ
copy_from zero i dest src = dest
copy_from (suc n) i dest src = copy_from n (i + 1) (set dest i (get_or src i 0)) src

abbrev pub copy_bytes : List ℕ → List ℕ → List ℕ
copy_bytes dest src = copy_from tuple_size 0 dest src

-- The body of `SPush` once the stack is known: the status and the stack.
unfoldable pub place_on_top : Stack → List ℕ → ℕ × Stack
place_on_top s bytes =
    if ltb s.top_idx cont_size
    then (
      1,
      record s {
        slots = set s.slots s.top_idx (copy_bytes (get_or s.slots s.top_idx List.[]) bytes);
        top_idx = s.top_idx + 1;
      },
    )
    else (0, s)

-- The body of `SPop`: the status, the tuple's bytes and the stack.
unfoldable pub take_off_top : Stack → List ℕ → ℕ × List ℕ × Stack
take_off_top s bytes =
    if ltb 0 s.top_idx
    then (
      1,
      copy_bytes bytes (get_or s.slots (s.top_idx - 1) List.[]),
      record s { top_idx = s.top_idx - 1 },
    )
    else (0, bytes, s)

-- `SPush`
unfoldable pub push : Memory → Option ℕ → ℕ × Memory
unfolding place_on_top
push m none = (0, m)
push m (some t) = elim (m.tuple_at t).caller [
  | none ↦ (0, m)
  | some a ↦
      let (status, s) = place_on_top (m.stack_at a) (m.tuple_at t).bytes in
      (status, write_stack m a s)
]

-- The body of `SPop` through the tuple at `t`, whose caller is given.
unfoldable pub pop_from : Memory → ℕ → Option ℕ → ℕ × Memory
unfolding take_off_top
pop_from m t none = (0, m)
pop_from m t (some a) =
    let (status, bytes, s) = take_off_top (m.stack_at a) (m.tuple_at t).bytes in
    (status, write_tuple (write_stack m a s) t (record (m.tuple_at t) { bytes = bytes }))

-- `SPop`
unfoldable pub pop : Memory → Option ℕ → ℕ × Memory
unfolding pop_from
pop m none = (0, m)
pop m (some t) = pop_from m t (m.tuple_at t).caller

-- `InitStack`
unfoldable pub init_stack : Memory → Option ℕ → ℕ × Memory
init_stack m none = (0, m)
init_stack m (some a) =
    (1, write_stack m a (record (m.stack_at a) { top_idx = 0; on_push = s_push; on_pop = s_pop }))

-- `LinkStackSTuple`
unfoldable pub link_stack : Memory → Option ℕ → Option ℕ → ℕ × Memory
link_stack m none t = (0, m)
link_stack m (some a) none = (0, m)
link_stack m (some a) (some t) = (1, write_tuple m t (record (m.tuple_at t) { caller = some a }))
