-- ===== src/RadioLink/Delivery/Reliable.antt =====
-- Reliable delivery: once both peers have ended their resets, what one side has received is the start of
-- what the other has sent.
use wixel_sdk.Base.{
  ℕ, ◌<◌, ◌≡◌, ◌≢◌, sym, ap, subst, ◌∙◌, ◌⊎◌, inl, inr, Bool, true, false, List, [], ◌∷◌, ◌++◌,
  Option, none, some, append_assoc,
}
use wixel_sdk.RadioLink.Peer.{Payload, Message, initiative}
use wixel_sdk.RadioLink.World.{
  Side, Step, Reach, puts, takes, wakes, falls_silent, is_heard, other, here, next,
}
use wixel_sdk.RadioLink.Delivery.{
  Delivered, Flow, Load, Air, Acks, got, DeliveredTo, OneWay, Air-ping_of, Acks-ping_of, InStep,
  heard-InStep,
}

-- One direction between peers that have ended their resets, with nothing on the air: the receiver
-- expects the sender's bit, and what has not been received is in the queue.
pub record IsConnected (a b : Side) : Type 0 where
  pub quiet : a.peer.resetting ≡ false
  pub bit : a.peer.tx_seq < 2
  pub silent : a.air ≡ none
  pub expected : (b.peer.any ≡ true) ⊎ (b.peer.rx_seq ≢ a.peer.tx_seq)
  pub accounted : got b ++ a.peer.queue ≡ a.sent

-- A packet more at the end of the queue.
Delivered-put :
    (x : Payload) {q : List Payload} {s r : ℕ} {any : Bool} {g sent : List Payload}
    → Delivered q s r any g sent
    → Delivered (q ++ x ∷ []) s r any g (sent ++ x ∷ [])
Delivered-put x {g = g} d = record {
  head = d.head;
  rest = d.rest ++ x ∷ [];
  queue_is = ap (λ q. q ++ x ∷ []) d.queue_is;
  so_far = sym (append_assoc g d.rest (x ∷ [])) ∙ ap (λ l. l ++ x ∷ []) d.so_far;
  known = d.known;
  told = d.told;
}

Flow-put :
    (x : Payload) (q : List Payload) (s r : ℕ) (any : Bool) (g sent : List Payload)
    → Flow q s r any g sent
    → Flow (q ++ x ∷ []) s r any g (sent ++ x ∷ [])
Flow-put x q s r any g sent (inl (e, new)) =
    inl (sym (append_assoc g q (x ∷ [])) ∙ ap (λ l. l ++ x ∷ []) e, new)
Flow-put x q s r any g sent (inr d) = inr (Delivered-put x d)

Load-put :
    (x : Payload) (load : Option Payload) (seq : ℕ) (q : List Payload) (s : ℕ)
    → Load load seq q s
    → Load load seq (q ++ x ∷ []) s
Load-put x none seq q s h = h
Load-put x (some y) seq q s (e, (rest, queue_is)) =
    (e, (rest ++ x ∷ [], ap (λ q. q ++ x ∷ []) queue_is))

Air-put :
    (x : Payload) (o : Option Message) (q : List Payload) (s : ℕ)
    → Air o q s
    → Air o (q ++ x ∷ []) s
Air-put x none q s h = h
Air-put x (some m) q s h = (h.0, Load-put x m.load m.seq q s h.1)

Acks-map : (o : Option Message) (D E : Type 0) → (D → E) → Acks o D → Acks o E
Acks-map none D E f h = h
Acks-map (some m) D E f h = λ e. f (h e)

got-takes :
    (taken inbox : List Payload) (x : Payload) (rest : List Payload)
    → inbox ≡ x ∷ rest
    → taken ++ inbox ≡ (taken ++ x ∷ []) ++ rest
got-takes taken inbox x rest e = ap (λ l. taken ++ l) e ∙ sym (append_assoc taken (x ∷ []) rest)

-- Every step keeps both directions in step.
Step-InStep : {w v : Side × Side} → Step w v → InStep w → InStep v
unfolding initiative
Step-InStep (puts a b x) (to, from) = (
  record {
    quiet = to.quiet;
    bit = to.bit;
    flow = Flow-put x _ _ _ _ _ _ to.flow;
    air = Air-put x a.air _ _ to.air;
    acks = Acks-map b.air _ _ (λ d. Delivered-put x d) to.acks;
  },
  record { quiet = from.quiet; bit = from.bit; flow = from.flow; air = from.air; acks = from.acks },
)
Step-InStep (takes a b x rest e) (to, from) =
    let g = got-takes a.taken a.peer.inbox x rest e in
    (
      record { quiet = to.quiet; bit = to.bit; flow = to.flow; air = to.air; acks = to.acks },
      record {
        quiet = from.quiet;
        bit = from.bit;
        flow =
            subst (λ g. Flow b.peer.queue b.peer.tx_seq a.peer.rx_seq a.peer.any g b.sent) g
              from.flow;
        air = from.air;
        acks =
            subst
              (λ g.
                Acks a.air (Delivered b.peer.queue b.peer.tx_seq a.peer.rx_seq a.peer.any g b.sent))
              g from.acks;
      },
    )
Step-InStep (wakes a b) (to, from) = (
  record {
    quiet = to.quiet;
    bit = to.bit;
    flow = to.flow;
    air = rw (to.quiet) (Air-ping_of a.peer.tx_seq a.peer.queue);
    acks = to.acks;
  },
  record {
    quiet = from.quiet;
    bit = from.bit;
    flow = from.flow;
    air = from.air;
    acks = rw (to.quiet) (Acks-ping_of a.peer.tx_seq a.peer.queue _);
  },
)
Step-InStep (falls_silent a b) (to, from) = (
  record { quiet = to.quiet; bit = to.bit; flow = to.flow; air = tt; acks = to.acks },
  record { quiet = from.quiet; bit = from.bit; flow = from.flow; air = from.air; acks = tt },
)
Step-InStep (is_heard a b m e) h = heard-InStep a b m e h
Step-InStep (other st) (to, from) = let r = Step-InStep st (from, to) in (r.1, r.0)

pub Reach-InStep : {w v : Side × Side} → InStep w → Reach w v → InStep v
Reach-InStep h here = h
Reach-InStep h (next r st) = Step-InStep st (Reach-InStep h r)

IsConnected-OneWay : (a b : Side) → IsConnected a b → b.air ≡ none → OneWay a b
IsConnected-OneWay a b c silent = record {
  quiet = c.quiet;
  bit = c.bit;
  flow = inl (c.accounted, c.expected);
  air = subst (λ o. Air o a.peer.queue a.peer.tx_seq) (sym c.silent) tt;
  acks = subst (λ o. Acks o (DeliveredTo a b)) (sym silent) tt;
}

-- What is received is the start of what was sent.
abbrev pub IsPrefix : List Payload → List Payload → Type 0
IsPrefix g sent = (rest : List Payload) × (g ++ rest ≡ sent)

Flow-IsPrefix :
    (q : List Payload) (s r : ℕ) (any : Bool) (g sent : List Payload)
    → Flow q s r any g sent
    → IsPrefix g sent
Flow-IsPrefix q s r any g sent (inl f) = (q, f.0)
Flow-IsPrefix q s r any g sent (inr d) = (d.rest, d.so_far)

pub connected-InStep : (a b : Side) → IsConnected a b → IsConnected b a → InStep (a, b)
connected-InStep a b to from =
    (IsConnected-OneWay a b to from.silent, IsConnected-OneWay b a from to.silent)

-- From two peers that have ended their resets, whatever is then sent, heard, lost or taken out, what
-- each side has received, in its inbox or taken out of it, is the start of what the other has sent:
-- nothing is lost in between, repeated or out of order.
pub delivers_in_order :
    (a b : Side) (v : Side × Side)
    → IsConnected a b
    → IsConnected b a
    → Reach (a, b) v
    → IsPrefix (got v.1) v.0.sent × IsPrefix (got v.0) v.1.sent
delivers_in_order a b v to from r =
    let h = Reach-InStep (connected-InStep a b to from) r in
    (Flow-IsPrefix _ _ _ _ _ _ h.0.flow, Flow-IsPrefix _ _ _ _ _ _ h.1.flow)
