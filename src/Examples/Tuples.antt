-- ===== src/Examples/Tuples.antt =====
-- The queue and the stack of tuples at concrete inputs.
use wixel_sdk.Base.{
  ℕ, zero, suc, ◌<◌, ◌≡◌, refl, ap, List, [], ◌∷◌, some, arith, length, get_or, replicate,
  length-replicate,
}
use wixel_sdk.Queue
use wixel_sdk.Queue.Laws as QueueLaws
use wixel_sdk.Queue.Clients.{Call, pushes, forces, pops, run, view_run, View, Agrees, run_refines}
use wixel_sdk.Stack
use wixel_sdk.Stack.Laws.{
  pop-push, place_on_top_refines, take_off_top_refines, lifo_push, lifo_pop, steps-IsValid,
}
use wixel_sdk.Stack.Laws as StackLaws

get_or-replicate : (n i : ℕ) (x : List ℕ) → i < n → get_or (replicate n x) i [] ≡ x
get_or-replicate zero i x h = absurd (omega arith)
get_or-replicate (suc n) zero x h = refl
get_or-replicate (suc n) (suc i) x h = get_or-replicate n i x (omega arith)

abbrev empty_slots : List (List ℕ)
empty_slots = replicate 64 (replicate 5 0)

empty_slot_size : (i : ℕ) → i < 64 → length (get_or empty_slots i []) ≡ 5
empty_slot_size i h = ap length (get_or-replicate 64 i (replicate 5 0) h)

abbrev queue_state : Queue.Queue
queue_state = record {
  slots = empty_slots;
  head = 62;
  tail = 62;
  on_push = Queue.q_push;
  on_pop = Queue.q_pop;
  on_push_force = Queue.q_push_force;
}

queue_state-IsValid : QueueLaws.IsValid queue_state
queue_state-IsValid = record {
  slots_all = length-replicate {A = List ℕ} 64 (replicate 5 0);
  slot_size = empty_slot_size;
  head_in = omega arith;
  tail_in = omega arith;
}

abbrev queue_memory : Queue.Memory
queue_memory = record {
  queue_at = λ a. queue_state;
  tuple_at = λ t. record { caller = some 7; bytes = t ∷ 1 ∷ 2 ∷ 3 ∷ 4 ∷ [] };
}

abbrev queue_view : View
queue_view = record { held = []; bytes = λ t. t ∷ 1 ∷ 2 ∷ 3 ∷ 4 ∷ [] }

abbrev Small : ℕ → Type 0
Small t = t < 3

queue_memory-Agrees : Agrees Small 7 queue_memory queue_view
queue_memory-Agrees = record {
  valid = queue_state-IsValid;
  holds = refl;
  linked = λ t h. refl;
  sized = λ t h. refl;
  bytes = λ t h. refl;
}

abbrev calls : List Call
calls = pushes 0 ∷ forces 1 ∷ pops 2 ∷ pops 2 ∷ pops 0 ∷ []

run_refines_example :
    ((run queue_memory calls).0 ≡ (view_run queue_view calls).0)
    × Agrees Small 7 (run queue_memory calls).1 (view_run queue_view calls).1
run_refines_example =
    run_refines Small 7 queue_memory queue_view calls queue_memory-Agrees
      (omega arith, (omega arith, (omega arith, (omega arith, (omega arith, tt)))))

abbrev stack_state : Stack.Stack
stack_state = record {
  slots = empty_slots;
  top_idx = 63;
  on_push = Stack.s_push;
  on_pop = Stack.s_pop;
}

stack_state-IsValid : StackLaws.IsValid stack_state
stack_state-IsValid = record {
  slots_all = length-replicate {A = List ℕ} 64 (replicate 5 0);
  slot_size = empty_slot_size;
  top_in = omega arith;
}

abbrev tuple : List ℕ
tuple = 9 ∷ 8 ∷ 7 ∷ 6 ∷ 5 ∷ []

abbrev stack_memory : Stack.Memory
stack_memory = record {
  stack_at = λ a. stack_state;
  tuple_at = λ t. record { caller = some 2; bytes = t ∷ 8 ∷ 7 ∷ 6 ∷ 5 ∷ [] };
}

pop-push_example :
    ((Stack.pop (Stack.push stack_memory (some 0)).1 (some 1)).0 ≡ 1)
    × (((Stack.pop (Stack.push stack_memory (some 0)).1 (some 1)).1.tuple_at 1).bytes
        ≡ (stack_memory.tuple_at 0).bytes)
    × (StackLaws.contents ((Stack.pop (Stack.push stack_memory (some 0)).1 (some 1)).1.stack_at 2)
        ≡ StackLaws.contents (stack_memory.stack_at 2))
pop-push_example = pop-push stack_memory 2 0 1 refl refl stack_state-IsValid refl refl (omega arith)
