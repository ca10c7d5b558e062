-- ===== src/RadioLink/Delivery.antt =====
-- The invariant of the protocol of radio_link.c between two peers that have ended their resets, and
-- that an answer keeps it.
pub mod Reliable
use wixel_sdk.Base.{
  ℕ, zero, suc, ◌<◌, ◌≡◌, ◌≢◌, refl, sym, ap, subst, ◌∙◌, ◌⊎◌, inl, inr, Bool, true, false, not,
  ◌||◌, ◌==◌, ltb, length, if◌then◌else◌, List, [], ◌∷◌, ◌++◌, Option, none, some, arith, bit_xor,
  append_assoc, append-nil, Bool-cases, if_cases, if_both,
}
use wixel_sdk.RadioLink.Defs.{type_ping, type_ack, type_nak, type_reset}
use wixel_sdk.RadioLink.Peer.{
  Payload, Message, Peer, initiative, answer, answer_load, acknowledge, advance, take_in, send,
  ping_of, carry, bare,
}
use wixel_sdk.RadioLink.World.{Side, answers}

-- From a queue `q` with sequence bit `s` to a receiver that expects anything but `r`, or anything at
-- all, that has got `got` of what was sent: the head of the queue is still to be delivered, ...
abbrev pub Fresh : List Payload → ℕ → ℕ → Bool → List Payload → List Payload → Type 0
Fresh q s r any got sent = (got ++ q ≡ sent) × ((any ≡ true) ⊎ (r ≢ s))

-- ... or it has been delivered and not been acknowledged yet.
pub record Delivered (q : List Payload) (s r : ℕ) (any : Bool) (got sent : List Payload)
    : Type 0 where
  pub head : Payload
  pub rest : List Payload
  pub queue_is : q ≡ head ∷ rest
  pub so_far : got ++ rest ≡ sent
  pub known : r ≡ s
  pub told : any ≡ false

abbrev pub Flow : List Payload → ℕ → ℕ → Bool → List Payload → List Payload → Type 0
Flow q s r any got sent = Fresh q s r any got sent ⊎ Delivered q s r any got sent

abbrev pub Load : Option Payload → ℕ → List Payload → ℕ → Type 0
Load none seq q s = Unit
Load (some x) seq q s = (seq ≡ s) × ((rest : List Payload) × (q ≡ x ∷ rest))

-- Data on the air is the head of the sender's queue with the sender's bit.
abbrev pub Air : Option Message → List Payload → ℕ → Type 0
Air none q s = Unit
Air (some m) q s = (m.kind ≢ type_reset) × Load m.load m.seq q s

-- An acknowledgement on the air is of a packet that has been delivered.
abbrev pub Acks : Option Message → Type 0 → Type 0
Acks none D = Unit
Acks (some m) D = m.kind ≡ type_ack → D

abbrev pub got : Side → List Payload
got b = b.taken ++ b.peer.inbox

abbrev pub DeliveredTo : Side → Side → Type 0
DeliveredTo a b = Delivered a.peer.queue a.peer.tx_seq b.peer.rx_seq b.peer.any (got b) a.sent

-- The direction from `a` to `b`.
pub record OneWay (a b : Side) : Type 0 where
  pub quiet : a.peer.resetting ≡ false
  pub bit : a.peer.tx_seq < 2
  pub flow : Flow a.peer.queue a.peer.tx_seq b.peer.rx_seq b.peer.any (got b) a.sent
  pub air : Air a.air a.peer.queue a.peer.tx_seq
  pub acks : Acks b.air (DeliveredTo a b)

bit_xor-ne : (s : ℕ) → s < 2 → s ≢ bit_xor s 1
bit_xor-ne zero h e = omega arith
bit_xor-ne (suc zero) h e = omega arith
bit_xor-ne (suc (suc s)) h e = omega arith

-- A delivered packet is acknowledged: the next one is fresh.
acknowledge-Fresh :
    (p : Peer) (r : ℕ) (any : Bool) (got sent : List Payload)
    → p.resetting ≡ false
    → p.tx_seq < 2
    → Delivered p.queue p.tx_seq r any got sent
    → Fresh (acknowledge p).queue (acknowledge p).tx_seq r any got sent
unfolding acknowledge advance
acknowledge-Fresh p r any got sent quiet bit d =
    let next_bit : p.tx_seq ≢ bit_xor p.tx_seq 1 = bit_xor-ne p.tx_seq bit in
    rw (quiet, acknowledge) (rw (d.queue_is) (d.so_far, inr (λ e. next_bit (sym d.known ∙ e))))

abbrev Took : Payload → List Payload → ℕ → List Payload → List Payload → ℕ × Peer → Type 0
Took x rest s taken sent (k, p) =
    Flow (x ∷ rest) s p.rx_seq p.any (taken ++ p.inbox) sent
    × (k ≡ type_ack → Delivered (x ∷ rest) s p.rx_seq p.any (taken ++ p.inbox) sent)

-- Data that is the head of the queue is taken in.
take_in-Flow :
    (p : Peer) (x : Payload) (rest : List Payload) (s : ℕ) (taken sent : List Payload)
    → Flow (x ∷ rest) s p.rx_seq p.any (taken ++ p.inbox) sent
    → Took x rest s taken sent (take_in s x p)
unfolding take_in
take_in-Flow p x rest s taken sent f =
    if_cases (Took x rest s taken sent) (p.any || not (p.rx_seq == s)) _ _ (expected f) (repeated f)
  where
    expected :
        Flow (x ∷ rest) s p.rx_seq p.any (taken ++ p.inbox) sent
        → p.any || not (p.rx_seq == s) ≡ true
        → Took x rest s taken sent (
            if ltb (length p.inbox) 2
            then (type_ack, record p { rx_seq = s; any = false; inbox = p.inbox ++ x ∷ [] })
            else (type_nak, p))
    expected (inl (e, new)) t =
        let d : Delivered (x ∷ rest) s s false (taken ++ (p.inbox ++ x ∷ [])) sent = record {
          head = x;
          rest = rest;
          queue_is = refl;
          so_far =
              ap (λ l. l ++ rest) (sym (append_assoc taken p.inbox (x ∷ [])))
              ∙ append_assoc (taken ++ p.inbox) (x ∷ []) rest
              ∙ e;
          known = refl;
          told = refl;
        } in
        if_both (Took x rest s taken sent) (ltb (length p.inbox) 2) (inr d, λ k. d)
          (inl (e, new), λ k. absurd (omega arith))
    expected (inr d) t = absurd (ground (arith, d.told, d.known))

    repeated :
        Flow (x ∷ rest) s p.rx_seq p.any (taken ++ p.inbox) sent
        → p.any || not (p.rx_seq == s) ≡ false
        → Took x rest s taken sent (type_ack, p)
    repeated (inl (e, new)) t = absurd (ground (arith, new))
    repeated (inr d) t = (inr d, λ k. d)

-- The direction from a peer to `a`, leaving the air aside.
record Half (p : Peer) (a : Side) (sent : List Payload) : Type 0 where
  quiet : p.resetting ≡ false
  bit : p.tx_seq < 2
  flow : Flow p.queue p.tx_seq a.peer.rx_seq a.peer.any (got a) sent

-- The direction to a peer, that has taken `taken` before.
abbrev To : List Payload → ℕ → List Payload → List Payload → Peer → Type 0
To q s taken sent p = Flow q s p.rx_seq p.any (taken ++ p.inbox) sent

advance-To :
    (q : List Payload) (s : ℕ) (taken sent : List Payload) (r : List Payload) (p : Peer)
    → To q s taken sent p
    → To q s taken sent (advance r p)
unfolding advance
advance-To q s taken sent [] p h = h
advance-To q s taken sent (x ∷ r) p h = h

bit_xor-lt : (s : ℕ) → s < 2 → bit_xor s 1 < 2
bit_xor-lt zero h = omega arith
bit_xor-lt (suc zero) h = omega arith
bit_xor-lt (suc (suc s)) h = omega arith

advance-quiet :
    (r : List Payload) (p : Peer)
    → p.resetting ≡ false
    → p.tx_seq < 2
    → ((advance r p).resetting ≡ false) × ((advance r p).tx_seq < 2)
unfolding advance
advance-quiet [] p h b = (h, b)
advance-quiet (x ∷ r) p h b = (h, bit_xor-lt p.tx_seq b)

acknowledge-advance : (p : Peer) → p.resetting ≡ false → acknowledge p ≡ advance p.queue p
unfolding acknowledge
acknowledge-advance p quiet =
    ap (λ b. if b then record p { resetting = false; tx_seq = 0 } else advance p.queue p) quiet

acknowledge-To :
    (q : List Payload) (s : ℕ) (taken sent : List Payload) (p : Peer)
    → p.resetting ≡ false
    → To q s taken sent p
    → To q s taken sent (acknowledge p)
acknowledge-To q s taken sent p quiet h =
    subst (To q s taken sent) (sym (acknowledge-advance p quiet))
      (advance-To q s taken sent p.queue p h)

acknowledge-Half :
    (p : Peer) (a : Side) (sent : List Payload)
    → Half p a sent
    → Delivered p.queue p.tx_seq a.peer.rx_seq a.peer.any (got a) sent
    → Half (acknowledge p) a sent
acknowledge-Half p a sent h d =
    let kept =
      subst (λ (k : Peer). (k.resetting ≡ false) × (k.tx_seq < 2))
        (sym (acknowledge-advance p h.quiet)) (advance-quiet p.queue p h.quiet h.bit) in
    record {
      quiet = kept.0;
      bit = kept.1;
      flow = inl (acknowledge-Fresh p a.peer.rx_seq a.peer.any (got a) sent h.quiet h.bit d);
    }

-- An initiative or an answer: on the air, the head of the queue and no Reset.
Air-carry : (k s : ℕ) (q : List Payload) → k ≢ type_reset → Air (some (carry k s q)) q s
Air-carry k s [] h = (h, tt)
Air-carry k s (x ∷ q) h = (h, (refl, (q, refl)))

pub Air-ping_of : (s : ℕ) (q : List Payload) → Air (ping_of s q) q s
Air-ping_of s [] = tt
Air-ping_of s (x ∷ q) = Air-carry type_ping s (x ∷ q) (λ e. omega arith)

pub Acks-ping_of : (s : ℕ) (q : List Payload) (D : Type 0) → Acks (ping_of s q) D
Acks-ping_of s [] D = tt
Acks-ping_of s (x ∷ q) D = λ e. absurd (omega arith)

kind-carry : (k s : ℕ) (q : List Payload) → (carry k s q).kind ≡ k
kind-carry k s [] = refl
kind-carry k s (x ∷ q) = refl

take_in-kind : (s : ℕ) (x : Payload) (p : Peer) → (take_in s x p).0 ≢ type_reset
unfolding take_in
take_in-kind s x p =
    if_both (λ (r : ℕ × Peer). r.0 ≢ type_reset) (p.any || not (p.rx_seq == s))
      (if_both (λ (r : ℕ × Peer). r.0 ≢ type_reset) (ltb (length p.inbox) 2) (λ e. omega arith)
        (λ e. omega arith))
      (λ e. omega arith)

take_in-Half :
    (s : ℕ) (x : Payload) (p : Peer) (a : Side) (sent : List Payload)
    → Half p a sent
    → Half (take_in s x p).1 a sent
unfolding take_in
take_in-Half s x p a sent h =
    if_both (λ (r : ℕ × Peer). Half r.1 a sent) (p.any || not (p.rx_seq == s))
      (if_both (λ (r : ℕ × Peer). Half r.1 a sent) (ltb (length p.inbox) 2)
        (record { quiet = h.quiet; bit = h.bit; flow = h.flow }) h)
      h

-- What holds of an answer: both directions, and what is on the air.
record Answered (a : Side) (q : List Payload) (s : ℕ) (taken to_sent from_sent : List Payload)
    (r : Option Message × Peer) : Type 0 where
  half : Half r.1 a from_sent
  to : To q s taken to_sent r.1
  air : Air r.0 r.1.queue r.1.tx_seq
  acks : Acks r.0 (Delivered q s r.1.rx_seq r.1.any (taken ++ r.1.inbox) to_sent)

answer_load-Answered :
    (m : Message) (load : Option Payload) (p : Peer) (a : Side) (q : List Payload) (s : ℕ)
    (taken to_sent from_sent : List Payload)
    → Half p a from_sent
    → To q s taken to_sent p
    → Load load m.seq q s
    → Answered a q s taken to_sent from_sent (answer_load m load p)
unfolding answer_load initiative
answer_load-Answered m none p a q s taken to_sent from_sent h t l = record {
  half = h;
  to = t;
  air = rw (h.quiet) (Air-ping_of p.tx_seq p.queue);
  acks = rw (h.quiet) (Acks-ping_of p.tx_seq p.queue _);
}
answer_load-Answered m (some x) p a q s taken to_sent from_sent h t (bit, (rest, queue_is)) =
    let (k, p') = take_in m.seq x p in
    let t' : To (x ∷ rest) m.seq taken to_sent p =
      subst (λ s. To (x ∷ rest) s taken to_sent p) (sym bit)
        (subst (λ q. To q s taken to_sent p) queue_is t) in
    let took = take_in-Flow p x rest m.seq taken to_sent t' in
    let r : Answered a (x ∷ rest) m.seq taken to_sent from_sent (some (send k p'), p') = record {
      half = take_in-Half m.seq x p a from_sent h;
      to = took.0;
      air = Air-carry k p'.tx_seq p'.queue (take_in-kind m.seq x p);
      acks = λ e. took.1 (sym (kind-carry k p'.tx_seq p'.queue) ∙ e);
    } in
    subst (λ q. Answered a q s taken to_sent from_sent (some (send k p'), p')) (sym queue_is)
      (subst (λ s. Answered a (x ∷ rest) s taken to_sent from_sent (some (send k p'), p')) bit r)

-- Everything but a Reset is answered in this way.
answer-Answered :
    (m : Message) (p : Peer) (a : Side) (q : List Payload) (s : ℕ)
    (taken to_sent from_sent : List Payload)
    → m.kind ≢ type_reset
    → Half p a from_sent
    → To q s taken to_sent p
    → Load m.load m.seq q s
    → (m.kind ≡ type_ack → Delivered p.queue p.tx_seq a.peer.rx_seq a.peer.any (got a) from_sent)
    → Answered a q s taken to_sent from_sent (answer m p)
unfolding answer
answer-Answered m p a q s taken to_sent from_sent no_reset h t l d =
    if_cases (Answered a q s taken to_sent from_sent) (m.kind == type_reset) _ _
      (λ e. absurd (ground (arith, no_reset)))
      (λ _. acked (m.kind == type_ack) (λ e. d (ground arith)))
  where
    acked :
        (b : Bool)
        → (b ≡ true → Delivered p.queue p.tx_seq a.peer.rx_seq a.peer.any (got a) from_sent)
        → Answered a q s taken to_sent from_sent
            (answer_load m m.load (if b then acknowledge p else p))
    acked true d =
        answer_load-Answered m m.load (acknowledge p) a q s taken to_sent from_sent
          (acknowledge-Half p a from_sent h (d refl)) (acknowledge-To q s taken to_sent p h.quiet t)
          l
    acked false d = answer_load-Answered m m.load p a q s taken to_sent from_sent h t l

-- Both directions.
abbrev pub InStep : Side × Side → Type 0
InStep (a, b) = OneWay a b × OneWay b a

pub heard-InStep :
    (a b : Side) (m : Message)
    → a.air ≡ some m
    → InStep (a, b)
    → InStep (record a { air = none }, answers m b)
heard-InStep a b m e (to, from) =
    let on_air : Air (some m) a.peer.queue a.peer.tx_seq =
      subst (λ o. Air o a.peer.queue a.peer.tx_seq) e to.air in
    let h : Half b.peer a b.sent = record {
      quiet = from.quiet;
      bit = from.bit;
      flow = from.flow;
    } in
    let r =
      answer-Answered m b.peer a a.peer.queue a.peer.tx_seq b.taken a.sent b.sent on_air.0 h to.flow
        on_air.1 (subst (λ o. Acks o (DeliveredTo b a)) e from.acks) in
    (
      record { quiet = to.quiet; bit = to.bit; flow = r.to; air = tt; acks = r.acks },
      record { quiet = r.half.quiet; bit = r.half.bit; flow = r.half.flow; air = r.air; acks = tt },
    )
