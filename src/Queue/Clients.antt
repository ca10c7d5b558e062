-- ===== src/Queue/Clients.antt =====
-- Clients reach one queue through several tuples that are linked to it: any sequence of their calls
-- is a sequence of calls of the bounded list.
use wixel_sdk.Base.{
  ℕ, ◌≡◌, refl, sym, ap, ap₂, ◌∙◌, true, List, [], ◌∷◌, some, arith, length, if◌then◌else◌, ◌==◌,
  All, if_both, Bool-cases, inl, inr,
}
use wixel_sdk.Queue.{
  Queue, QTuple, Memory, tuple_size, write_queue, write_tuple, push, push_force, pop, push_through,
  pop_from, enqueue, enqueue_force, dequeue,
}
use wixel_sdk.Queue.Laws.{
  IsValid, contents, fifo_push, fifo_push_force, fifo_pop, enqueue_refines, enqueue_force_refines,
  dequeue_refines, step-IsValid, length-dequeue,
}

-- A call through the tuple at an address.
pub data Call : Type 0 where
  pushes forces pops : ℕ → Call

pub step : Memory → Call → ℕ × Memory
step m (pushes t) = push m (some t)
step m (forces t) = push_force m (some t)
step m (pops t) = pop m (some t)

-- The list of tuples held, and the bytes of each client's tuple.
pub record View : Type 0 where
  pub held : List (List ℕ)
  pub bytes : ℕ → List ℕ

unfoldable pub view_step : View → Call → ℕ × View
view_step v (pushes t) =
    let (status, xs) = fifo_push v.held (v.bytes t) in (status, record v { held = xs })
view_step v (forces t) =
    let (status, xs) = fifo_push_force v.held (v.bytes t) in (status, record v { held = xs })
view_step v (pops t) =
    let (status, out, xs) = fifo_pop v.held (v.bytes t) in
    (status, record { held = xs; bytes = λ u. if t == u then out else v.bytes u })

pub run : Memory → List Call → List ℕ × Memory
run m [] = ([], m)
run m (c ∷ cs) =
    let (status, m') = step m c in let (rest, last) = run m' cs in (status ∷ rest, last)

unfoldable pub view_run : View → List Call → List ℕ × View
view_run v [] = ([], v)
view_run v (c ∷ cs) =
    let (status, v') = view_step v c in let (rest, last) = view_run v' cs in (status ∷ rest, last)

abbrev pub target : Call → ℕ
target (pushes t) = t
target (forces t) = t
target (pops t) = t

module _ (P : ℕ → Type 0) (a : ℕ) where
  -- The queue at `a` is valid and holds the list; the tuples of `P` are linked to it.
  pub record Agrees (m : Memory) (v : View) : Type 0 where
    pub valid : IsValid (m.queue_at a)
    pub holds : contents (m.queue_at a) ≡ v.held
    pub linked : (t : ℕ) → P t → (m.tuple_at t).caller ≡ some a
    pub sized : (t : ℕ) → P t → length (v.bytes t) ≡ tuple_size
    pub bytes : (t : ℕ) → P t → (m.tuple_at t).bytes ≡ v.bytes t

eq_refl : (n : ℕ) → (n == n) ≡ true
eq_refl n = ground arith

push_linked :
    (body : Queue → List ℕ → ℕ × Queue) (m : Memory) (t a : ℕ)
    → (m.tuple_at t).caller ≡ some a
    → push_through body m (some t) ≡ (
      (body (m.queue_at a) (m.tuple_at t).bytes).0,
      write_queue m a (body (m.queue_at a) (m.tuple_at t).bytes).1,
    )
unfolding push_through
push_linked body m t a e = rw (e, push_through)

pop_linked :
    (m : Memory) (t a : ℕ)
    → (m.tuple_at t).caller ≡ some a
    → pop m (some t) ≡ (
        let (status, bytes, q) = dequeue (m.queue_at a) (m.tuple_at t).bytes in
        (status, write_tuple (write_queue m a q) t (record (m.tuple_at t) { bytes = bytes })))
unfolding pop pop_from
pop_linked m t a e = ap (pop_from m t) e

module _ (P : ℕ → Type 0) (a : ℕ) where
  written :
      (m : Memory) (v : View) (q : Queue) (xs : List (List ℕ))
      → Agrees P a m v
      → IsValid q
      → contents q ≡ xs
      → Agrees P a (write_queue m a q) (record v { held = xs })
  written m v q xs g w e = record {
    valid = rw (eq_refl a) w;
    holds = rw (eq_refl a) e;
    linked = g.linked;
    sized = g.sized;
    bytes = g.bytes;
  }

  sized_of :
      (m : Memory) (v : View) (t : ℕ)
      → Agrees P a m v
      → P t
      → length (m.tuple_at t).bytes ≡ tuple_size
  sized_of m v t g p = ap length (g.bytes t p) ∙ g.sized t p

  pushed :
      (body : Queue → List ℕ → ℕ × Queue) (m : Memory) (v : View) (t : ℕ)
      (spec : List (List ℕ) → List ℕ → ℕ × List (List ℕ))
      → Agrees P a m v
      → P t
      → IsValid (body (m.queue_at a) (m.tuple_at t).bytes).1
      → (let (status, q) = body (m.queue_at a) (m.tuple_at t).bytes in (status, contents q))
        ≡ spec (contents (m.queue_at a)) (m.tuple_at t).bytes
      → ((push_through body m (some t)).0 ≡ (spec v.held (v.bytes t)).0)
        × Agrees P a
            (push_through body m (some t)).1
            (record v { held = (spec v.held (v.bytes t)).1 })
  pushed body m v t spec g p w e =
      rw (push_linked body m t a (g.linked t p))
        (ap (λ r. r.0) same, written m v _ _ g w (ap (λ r. r.1) same))
    where
      same :
          (let (status, q) = body (m.queue_at a) (m.tuple_at t).bytes in (status, contents q))
          ≡ spec v.held (v.bytes t)
      same = e ∙ ap₂ spec g.holds (g.bytes t p)

  popped :
      (m : Memory) (v : View) (t : ℕ)
      → Agrees P a m v
      → P t
      → ((pop m (some t)).0 ≡ (view_step v (pops t)).0)
        × Agrees P a (pop m (some t)).1 (view_step v (pops t)).1
  unfolding view_step
  popped m v t g p = rw (pop_linked m t a (g.linked t p)) (
    ap (λ r. r.0) same,
    record {
      valid = rw (eq_refl a) (step-IsValid q bs g.valid sized).2;
      holds = rw (eq_refl a) (ap (λ r. r.2) same);
      linked = λ u pu.
          if_both (λ (r : QTuple). r.caller ≡ some a) (t == u) (g.linked t p) (g.linked u pu);
      sized = λ u pu.
          if_both (λ (r : List ℕ). length r ≡ tuple_size) (t == u)
            (sym (ap (λ r. length r.1) same) ∙ length-dequeue q bs g.valid sized) (g.sized u pu);
      bytes = λ u pu. elim (Bool-cases (t == u)) [
        | inl e ↦ rw e (ap (λ r. r.1) same)
        | inr e ↦ rw e (g.bytes u pu)
      ];
    },
  )
    where
      q : Queue
      q = m.queue_at a

      bs : List ℕ
      bs = (m.tuple_at t).bytes

      sized : length bs ≡ tuple_size
      sized = sized_of m v t g p

      same :
          (let (status, out, q') = dequeue q bs in (status, out, contents q'))
          ≡ fifo_pop v.held (v.bytes t)
      same = dequeue_refines q bs g.valid sized ∙ ap₂ fifo_pop g.holds (g.bytes t p)

  step_Agrees :
      (m : Memory) (v : View) (c : Call)
      → Agrees P a m v
      → P (target c)
      → ((step m c).0 ≡ (view_step v c).0) × Agrees P a (step m c).1 (view_step v c).1
  unfolding step view_step push push_force
  step_Agrees m v (pushes t) g p =
      pushed enqueue m v t fifo_push g p (step-IsValid _ _ g.valid (sized_of m v t g p)).0
        (enqueue_refines _ _ g.valid (sized_of m v t g p))
  step_Agrees m v (forces t) g p =
      pushed enqueue_force m v t fifo_push_force g p
        (step-IsValid _ _ g.valid (sized_of m v t g p)).1
        (enqueue_force_refines _ _ g.valid (sized_of m v t g p))
  step_Agrees m v (pops t) g p = popped m v t g p

  -- Every call of a sequence returns the status that the bounded list returns, and at the end the
  -- queue holds the list and every client's tuple its bytes.
  pub run_refines :
      (m : Memory) (v : View) (cs : List Call)
      → Agrees P a m v
      → All (λ c. P (target c)) cs
      → ((run m cs).0 ≡ (view_run v cs).0) × Agrees P a (run m cs).1 (view_run v cs).1
  unfolding run view_run
  run_refines m v [] g h = (refl, g)
  run_refines m v (c ∷ cs) g h =
      let here = step_Agrees m v c g h.0 in
      let rest = run_refines (step m c).1 (view_step v c).1 cs here.1 h.1 in
      (ap₂ ◌∷◌ here.0 rest.0, rest.1)
