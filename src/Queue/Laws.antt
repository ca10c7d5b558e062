-- ===== src/Queue/Laws.antt =====
-- One queue against a first-in first-out list of at most `cont_size - 1` tuples.
use wixel_sdk.Base.{
  ℕ, suc, ◌+◌, ◌-◌, ◌%◌, ◌<◌, ◌≡◌, ◌≢◌, refl, sym, ap, ◌∙◌, not, List, get_or-set_self,
  get_or-set_ne, ℕ_discrete, [], ◌∷◌, ◌++◌, arith, length, get_or, set, length-set, if◌then◌else◌,
  if_both, ltb, drop, ◌==◌,
}
use wixel_sdk.Base.Ring.{span, length-span, span-push, span-congr}
use wixel_sdk.Queue.{
  Queue, cont_size, tuple_size, copy_from, copy_bytes, next_of, store, enqueue, enqueue_force,
  dequeue,
}

pub record IsValid (q : Queue) : Type 0 where
  pub slots_all : length q.slots ≡ cont_size
  pub slot_size : (i : ℕ) → i < cont_size → length (get_or q.slots i []) ≡ tuple_size
  pub head_in : q.head < cont_size
  pub tail_in : q.tail < cont_size

abbrev pub count : Queue → ℕ
count q = (q.tail + cont_size - q.head) % cont_size

-- The tuples held, oldest first: the slots after `head` up to `tail`.
abbrev pub contents : Queue → List (List ℕ)
contents q = span [] cont_size q.slots (q.head + 1) (count q)

-- The specification: a list of tuples, oldest first.
abbrev pub capacity : ℕ
capacity = cont_size - 1

unfoldable pub fifo_push : List (List ℕ) → List ℕ → ℕ × List (List ℕ)
fifo_push xs x = if ltb (length xs) capacity then (1, xs ++ x ∷ []) else (0, xs)

unfoldable pub fifo_push_force : List (List ℕ) → List ℕ → ℕ × List (List ℕ)
fifo_push_force xs x =
    if ltb (length xs) capacity then (1, xs ++ x ∷ []) else (1, drop 1 xs ++ x ∷ [])

unfoldable pub fifo_pop : List (List ℕ) → List ℕ → ℕ × List ℕ × List (List ℕ)
fifo_pop [] bytes = (0, bytes, [])
fifo_pop (x ∷ xs) bytes = (1, x, xs)

pub five : (xs : List ℕ) → length xs ≡ tuple_size → (a b c d e : ℕ) × (xs ≡ a ∷ b ∷ c ∷ d ∷ e ∷ [])
five [] h = absurd (omega arith)
five (a ∷ []) h = absurd (omega arith)
five (a ∷ b ∷ []) h = absurd (omega arith)
five (a ∷ b ∷ c ∷ []) h = absurd (omega arith)
five (a ∷ b ∷ c ∷ d ∷ []) h = absurd (omega arith)
five (a ∷ b ∷ c ∷ d ∷ e ∷ []) h = (a, b, c, d, e, refl)
five (a ∷ b ∷ c ∷ d ∷ e ∷ f ∷ r) h = absurd (omega arith)

-- The byte loop copies the whole tuple.
pub copy_bytes_lem :
    (dest src : List ℕ)
    → length dest ≡ tuple_size
    → length src ≡ tuple_size
    → copy_bytes dest src ≡ src
unfolding copy_from
copy_bytes_lem dest src hd hs =
    let (a, b, c, d, e, p) = five dest hd in let (f, g, h, i, j, q) = five src hs in rw (p, q)

-- What a push writes, for a tuple of the right size.
slots-store :
    (q : Queue) (bytes : List ℕ)
    → IsValid q
    → length bytes ≡ tuple_size
    → (store q bytes).slots ≡ set q.slots (next_of q) bytes
slots-store q bytes v h =
    ap (set q.slots (next_of q))
      (copy_bytes_lem (get_or q.slots (next_of q) []) bytes (v.slot_size _ (omega arith)) h)

-- A queue with room takes a tuple at its far end.
contents-store :
    (q : Queue) (bytes : List ℕ)
    → IsValid q
    → length bytes ≡ tuple_size
    → next_of q ≢ q.head
    → contents (store q bytes) ≡ contents q ++ bytes ∷ []
contents-store q bytes v h room =
    ap (span [] cont_size (store q bytes).slots (q.head + 1)) counted
    ∙ ap (λ xs. span [] cont_size xs (q.head + 1) (suc (count q))) (slots-store q bytes v h)
    ∙ span-push [] cont_size q.slots (next_of q) bytes (count q) (q.head + 1)
        (omega (arith, v.tail_in, v.head_in)) (omega (arith, v.slots_all))
        (λ k lt. omega (arith, v.tail_in, v.head_in))
  where
    counted : count (store q bytes) ≡ suc (count q)
    counted = omega (arith, v.tail_in, v.head_in)

abbrev forced : Queue → List ℕ → Queue
forced q bytes = record (store q bytes) { head = (q.head + 1) % cont_size }

-- A full queue that is pushed by force: the window moves on by one slot.
contents-forced :
    (q : Queue) (bytes : List ℕ)
    → IsValid q
    → length bytes ≡ tuple_size
    → next_of q ≡ q.head
    → contents (forced q bytes) ≡ drop 1 (contents q) ++ bytes ∷ []
contents-forced q bytes v h full =
    ap (span [] cont_size (store q bytes).slots ((q.head + 1) % cont_size + 1)) after
    ∙ span-congr [] cont_size (store q bytes).slots 63 _ (q.head + 1 + 1) (omega arith)
    ∙ ap (λ xs. span [] cont_size xs (q.head + 1 + 1) 63) (slots-store q bytes v h)
    ∙ span-push [] cont_size q.slots (next_of q) bytes 62 (q.head + 1 + 1)
        (omega (arith, v.head_in)) (omega (arith, v.slots_all)) (λ k lt. omega (arith, v.head_in))
    ∙ ap (λ n. drop 1 (span [] cont_size q.slots (q.head + 1) n) ++ bytes ∷ []) (sym before)
  where
    before : count q ≡ 63
    before = omega (arith, v.tail_in, v.head_in)

    after : count (forced q bytes) ≡ 63
    after = omega (arith, v.tail_in, v.head_in)

-- A pop that succeeds: `contents` matches on its count, the code compares two indices.
contents-pop :
    (q : Queue)
    → IsValid q
    → q.head ≢ q.tail
    → contents q
      ≡ get_or q.slots ((q.head + 1) % cont_size) []
        ∷ contents (record q { head = (q.head + 1) % cont_size })
contents-pop q v ne =
    ap (span [] cont_size q.slots (q.head + 1)) counted
    ∙ ap (◌∷◌ (get_or q.slots ((q.head + 1) % cont_size) [])) (
        span-congr [] cont_size q.slots rest (q.head + 1 + 1) ((q.head + 1) % cont_size + 1)
          (omega arith))
  where
    rest : ℕ
    rest = count (record q { head = (q.head + 1) % cont_size })

    counted : count q ≡ suc rest
    counted = omega (arith, v.tail_in, v.head_in)

contents-empty : (q : Queue) → IsValid q → q.head ≡ q.tail → contents q ≡ []
contents-empty q v e =
    ap (span [] cont_size q.slots (q.head + 1)) {y = 0} (omega (arith, v.tail_in, v.head_in))

count_lem : (q : Queue) → length (contents q) ≡ count q
count_lem q = length-span [] cont_size q.slots (q.head + 1) (count q)

-- `QPush` on a valid queue is the push of the bounded list: the status and what the queue holds.
pub enqueue_refines :
    (q : Queue) (bytes : List ℕ)
    → IsValid q
    → length bytes ≡ tuple_size
    → let (status, q') = enqueue q bytes in (status, contents q') ≡ fifo_push (contents q) bytes
unfolding enqueue fifo_push
enqueue_refines q bytes v h =
    ground (arith, count_lem q, v.head_in, v.tail_in, contents-store q bytes v h)

-- `QPushForce` on a valid queue never fails, and drops the oldest tuple where the list is full.
pub enqueue_force_refines :
    (q : Queue) (bytes : List ℕ)
    → IsValid q
    → length bytes ≡ tuple_size
    → let (status, q') = enqueue_force q bytes in
      (status, contents q') ≡ fifo_push_force (contents q) bytes
unfolding enqueue_force fifo_push_force
enqueue_force_refines q bytes v h = ground (
  arith,
  count_lem q,
  v.head_in,
  v.tail_in,
  contents-store q bytes v h,
  contents-forced q bytes v h,
)

-- `QPop` on a valid queue is the pop of the list: status, bytes copied out, and what is left.
pub dequeue_refines :
    (q : Queue) (bytes : List ℕ)
    → IsValid q
    → length bytes ≡ tuple_size
    → let (status, out, q') = dequeue q bytes in
      (status, out, contents q') ≡ fifo_pop (contents q) bytes
unfolding dequeue fifo_pop
dequeue_refines q bytes v h = ground (
  arith,
  contents-empty q v,
  contents-pop q v,
  copy_bytes_lem bytes (get_or q.slots ((q.head + 1) % cont_size) []) h
      (v.slot_size _ (omega arith)),
)

store-IsValid :
    (q : Queue) (bytes : List ℕ) → IsValid q → length bytes ≡ tuple_size → IsValid (store q bytes)
store-IsValid q bytes v h = record {
  slots_all = length-set q.slots (next_of q) _ ∙ v.slots_all;
  slot_size = λ i lt. rw (slots-store q bytes v h) (sized i lt);
  head_in = v.head_in;
  tail_in = omega arith;
}
  where
    sized :
        (i : ℕ) → i < cont_size → length (get_or (set q.slots (next_of q) bytes) i []) ≡ tuple_size
    sized i lt = elim (ℕ_discrete (next_of q) i) [
      | yes e ↦
          ap (λ j. length (get_or (set q.slots (next_of q) bytes) j [])) (sym e)
          ∙ ap length (get_or-set_self q.slots (next_of q) bytes [] (omega (arith, v.slots_all)))
          ∙ h
      | no ne ↦ ap length (get_or-set_ne q.slots (next_of q) i bytes [] ne) ∙ v.slot_size i lt
    ]

-- A push of either kind and a pop keep a queue valid.
pub step-IsValid :
    (q : Queue) (bytes : List ℕ)
    → IsValid q
    → length bytes ≡ tuple_size
    → IsValid (enqueue q bytes).1 × IsValid (enqueue_force q bytes).1 × IsValid (dequeue q bytes).2
unfolding enqueue enqueue_force dequeue
step-IsValid q bytes v h = (
  if_both (λ (r : ℕ × Queue). IsValid r.1) (not (next_of q == q.head)) stored v,
  if_both (λ (r : ℕ × Queue). IsValid r.1) (not (next_of q == q.head)) stored
      (record {
        slots_all = stored.slots_all;
        slot_size = stored.slot_size;
        head_in = omega arith;
        tail_in = stored.tail_in;
      }),
  if_both (λ (r : ℕ × List ℕ × Queue). IsValid r.2) (not (q.head == q.tail))
      (record {
        slots_all = v.slots_all;
        slot_size = v.slot_size;
        head_in = omega arith;
        tail_in = v.tail_in;
      })
      v,
)
  where
    stored : IsValid (store q bytes)
    stored = store-IsValid q bytes v h

-- What a pop copies out is a whole tuple.
pub length-dequeue :
    (q : Queue) (bytes : List ℕ)
    → IsValid q
    → length bytes ≡ tuple_size
    → length (dequeue q bytes).1 ≡ tuple_size
unfolding dequeue
length-dequeue q bytes v h =
    let sized : length (get_or q.slots ((q.head + 1) % cont_size) []) ≡ tuple_size =
      v.slot_size _ (omega arith) in
    if_both (λ (r : ℕ × List ℕ × Queue). length r.1 ≡ tuple_size) (not (q.head == q.tail))
      (ap length (copy_bytes_lem bytes _ h sized) ∙ sized) h
