-- ===== src/Stack/Laws.antt =====
-- One stack against a last-in first-out list of at most `cont_size` tuples, and a push and a pop
-- through linked tuples.
use wixel_sdk.Base.{
  ℕ, zero, suc, ◌+◌, ◌-◌, ◌≤◌, ◌<◌, ◌≡◌, refl, sym, ap, ap₂, ◌∙◌, List, [], ◌∷◌, arith, length,
  get_or, set, if◌then◌else◌, ltb, get_or-set_self, get_or-set_ne, length-set, some, ◌==◌,
  ℕ_discrete, dec_lt, if_cases, true,
}
use wixel_sdk.Queue.Laws.{five}
use wixel_sdk.Stack.{
  Stack, Memory, cont_size, tuple_size, copy_from, copy_bytes, place_on_top, take_off_top, push,
  pop, pop_from, write_stack, write_tuple,
}

pub record IsValid (s : Stack) : Type 0 where
  pub slots_all : length s.slots ≡ cont_size
  pub slot_size : (i : ℕ) → i < cont_size → length (get_or s.slots i []) ≡ tuple_size
  pub top_in : s.top_idx ≤ cont_size

-- The first `n` slots, the last one first.
abbrev pub below : List (List ℕ) → ℕ → List (List ℕ)
below xs zero = []
below xs (suc n) = get_or xs n [] ∷ below xs n

abbrev pub contents : Stack → List (List ℕ)
contents s = below s.slots s.top_idx

unfoldable pub lifo_push : List (List ℕ) → List ℕ → ℕ × List (List ℕ)
lifo_push xs x = if ltb (length xs) cont_size then (1, x ∷ xs) else (0, xs)

unfoldable pub lifo_pop : List (List ℕ) → List ℕ → ℕ × List ℕ × List (List ℕ)
lifo_pop [] bytes = (0, bytes, [])
lifo_pop (x ∷ xs) bytes = (1, x, xs)

copied :
    (dest src : List ℕ)
    → length dest ≡ tuple_size
    → length src ≡ tuple_size
    → copy_bytes dest src ≡ src
unfolding copy_from
copied dest src hd hs =
    let (a, b, c, d, e, p) = five dest hd in let (f, g, h, i, j, q) = five src hs in rw (p, q)

length-below : (xs : List (List ℕ)) (n : ℕ) → length (below xs n) ≡ n
length-below xs zero = refl
length-below xs (suc n) = ap suc (length-below xs n)

below-set : (xs : List (List ℕ)) (n i : ℕ) (x : List ℕ) → n ≤ i → below (set xs i x) n ≡ below xs n
below-set xs zero i x h = refl
below-set xs (suc n) i x h =
    ap₂ ◌∷◌ (get_or-set_ne xs i n x [] (λ e. omega arith)) (below-set xs n i x (omega arith))

-- With a tuple of five bytes, the body of `SPush` returns what the bounded list returns, and leaves
-- what it leaves.
pub place_on_top_refines :
    (s : Stack) (bytes : List ℕ)
    → IsValid s
    → length bytes ≡ tuple_size
    → (let (status, s') = place_on_top s bytes in (status, contents s'))
      ≡ lifo_push (contents s) bytes
unfolding place_on_top lifo_push
place_on_top_refines s bytes v h = elim (dec_lt s.top_idx cont_size) [
  | yes lt ↦
      let same = copied (get_or s.slots s.top_idx []) bytes (v.slot_size s.top_idx lt) h in
      let top : below (set s.slots s.top_idx bytes) (s.top_idx + 1) ≡ bytes ∷ contents s =
        (ap (below (set s.slots s.top_idx bytes)) {y = suc s.top_idx} (omega arith)
          ∙ ap₂ ◌∷◌ (get_or-set_self s.slots s.top_idx bytes [] (omega (arith, v.slots_all)))
              (below-set s.slots s.top_idx s.top_idx bytes (omega arith))) in
      ground (arith, same, top, length-below s.slots s.top_idx)
  | no ge ↦ ground (arith, length-below s.slots s.top_idx)
]

-- So does the body of `SPop`.
pub take_off_top_refines :
    (s : Stack) (bytes : List ℕ)
    → IsValid s
    → length bytes ≡ tuple_size
    → (let (status, out, s') = take_off_top s bytes in (status, out, contents s'))
      ≡ lifo_pop (contents s) bytes
unfolding take_off_top lifo_pop
take_off_top_refines s bytes v h = elim (ℕ_discrete s.top_idx 0) [
  | yes e ↦ let empty : contents s ≡ [] = ap (below s.slots) e in ground (arith, empty)
  | no ne ↦
      let n = s.top_idx - 1 in
      let cons : contents s ≡ get_or s.slots n [] ∷ below s.slots n =
        ap (below s.slots) {y = suc n} (omega arith) in
      let same = copied bytes (get_or s.slots n []) h (v.slot_size n (omega (arith, v.top_in))) in
      ground (arith, cons, same)
]

place_on_top-IsValid :
    (s : Stack) (bytes : List ℕ)
    → IsValid s
    → length bytes ≡ tuple_size
    → IsValid (place_on_top s bytes).1
unfolding place_on_top
place_on_top-IsValid s bytes v h =
    if_cases (λ (r : ℕ × Stack). IsValid r.1) (ltb s.top_idx cont_size) _ _
      (λ t.
        let lt : s.top_idx < cont_size = ground arith in
        let same = copied (get_or s.slots s.top_idx []) bytes (v.slot_size s.top_idx lt) h in
        record {
          slots_all = length-set s.slots s.top_idx _ ∙ v.slots_all;
          slot_size = λ i hi. elim (ℕ_discrete s.top_idx i) [
            | yes e ↦
                ap
                  (λ j. length (
                    get_or (set s.slots s.top_idx (copy_bytes (get_or s.slots s.top_idx []) bytes))
                      j []))
                  (sym e)
                ∙ ap length (get_or-set_self s.slots s.top_idx _ [] (omega (arith, v.slots_all)))
                ∙ ap length same
                ∙ h
            | no ne ↦ ap length (get_or-set_ne s.slots s.top_idx i _ [] ne) ∙ v.slot_size i hi
          ];
          top_in = omega arith;
        })
      (λ _. v)

-- The two bodies keep the invariant.
pub steps-IsValid :
    (s : Stack) (bytes : List ℕ)
    → IsValid s
    → length bytes ≡ tuple_size
    → IsValid (place_on_top s bytes).1 × IsValid (take_off_top s bytes).2
unfolding take_off_top
steps-IsValid s bytes v h = (place_on_top-IsValid s bytes v h, ground arith)

push_linked :
    (m : Memory) (t a : ℕ)
    → (m.tuple_at t).caller ≡ some a
    → push m (some t) ≡ (
        let (status, s) = place_on_top (m.stack_at a) (m.tuple_at t).bytes in
        (status, write_stack m a s))
unfolding push
push_linked m t a e = rw (e, push)

pop_linked :
    (m : Memory) (t a : ℕ)
    → (m.tuple_at t).caller ≡ some a
    → pop m (some t) ≡ (
        let (status, bytes, s) = take_off_top (m.stack_at a) (m.tuple_at t).bytes in
        (status, write_tuple (write_stack m a s) t (record (m.tuple_at t) { bytes = bytes })))
unfolding pop pop_from
pop_linked m t a e = ap (pop_from m t) e

eq_refl : (n : ℕ) → (n == n) ≡ true
eq_refl n = ground arith

abbrev taken : ℕ × List ℕ × Stack → ℕ × List ℕ × List (List ℕ)
taken (status, out, s) = (status, out, contents s)

-- On one stack, a pop after a push that has room.
take_off-place_on :
    (s : Stack) (x y : List ℕ)
    → IsValid s
    → length x ≡ tuple_size
    → length y ≡ tuple_size
    → s.top_idx < cont_size
    → taken (take_off_top (place_on_top s x).1 y) ≡ (1, x, contents s)
unfolding lifo_push lifo_pop
take_off-place_on s x y v hx hy lt =
    let pushed : contents (place_on_top s x).1 ≡ x ∷ contents s =
      ap (λ r. r.1) (place_on_top_refines s x v hx)
      ∙ ground (arith, length-below s.slots s.top_idx) in
    take_off_top_refines (place_on_top s x).1 y (place_on_top-IsValid s x v hx) hy
    ∙ ap (λ c. lifo_pop c y) pushed

-- What a tuple is pushed with, another tuple linked to the same stack is popped with, and the stack
-- holds what it held. The stack has room and the two tuples have five bytes.
pub pop-push :
    (m : Memory) (a t u : ℕ)
    → (m.tuple_at t).caller ≡ some a
    → (m.tuple_at u).caller ≡ some a
    → IsValid (m.stack_at a)
    → length (m.tuple_at t).bytes ≡ tuple_size
    → length (m.tuple_at u).bytes ≡ tuple_size
    → (m.stack_at a).top_idx < cont_size
    → let m' = (pop (push m (some t)).1 (some u)).1 in
      ((pop (push m (some t)).1 (some u)).0 ≡ 1)
      × ((m'.tuple_at u).bytes ≡ (m.tuple_at t).bytes)
      × (contents (m'.stack_at a) ≡ contents (m.stack_at a))
pop-push m a t u ct cu v ht hu lt =
    let s = m.stack_at a in
    let m1 = write_stack m a (place_on_top s (m.tuple_at t).bytes).1 in
    let same = take_off-place_on s (m.tuple_at t).bytes (m.tuple_at u).bytes v ht hu lt in
    rw (push_linked m t a ct) (
      rw (pop_linked m1 u a cu) (
        rw (eq_refl a)
          (rw (eq_refl u) (ap (λ r. r.0) same, ap (λ r. r.1) same, ap (λ r. r.2) same))))
