-- ===== src/RadioLink/Receives.antt =====
-- `radioMacEventHandler` against the protocol: for every event, the message that goes on the air and
-- the node afterwards.
use wixel_sdk.Base.{
  ℕ, ◌<◌, ◌≡◌, refl, sym, subst, Bool, true, false, not, Option, none, some, arith, if◌then◌else◌,
  ltb, ◌==◌, ◌⊎◌, inl, inr, get_or,
}
use wixel_sdk.RadioMac.{Event, on_tx, on_rx, on_rx_timeout, on_strobe}
use wixel_sdk.RadioLink.Defs.{Link, Node, type_ack, type_nak, type_reset}
use wixel_sdk.RadioLink.Handler.{
  Inputs, event_handler, received, acked, after_ack, respond, take_initiative, accept_data,
  ack_packet, packet_type, reset_packet, crc_failed, rx_byte,
}
use wixel_sdk.RadioLink.Bounds.{IsValid, ack_packet-IsValid, accept_data-IsValid}
use wixel_sdk.RadioLink.Peer.{
  Payload, Message, Peer, peer, bare, send, initiative, acknowledge, message, answer, answer_load,
  tx_payload,
}
use wixel_sdk.RadioLink.Refine.{Loaded}
use wixel_sdk.RadioLink.Sends.{
  Shows, listen-Shows, take_initiative-Shows, respond-Shows, reset_packet-Shows, crc_failed-Shows,
}
use wixel_sdk.RadioLink.Takes.{rx_slot, accept_data-peer, ack_packet-peer, ack_packet-Loaded}

-- A node sends what the protocol gives, and has the view it gives.
abbrev Answers : Node → Option Message × Peer → Type 0
Answers n r = Shows n r.0 r.1

branch-Answers :
    (b : Bool) (x y : Node) (r s : Option Message × Peer)
    → (b ≡ true → Answers x r)
    → (b ≡ false → Answers y s)
    → Answers (if b then x else y) (if b then r else s)
branch-Answers true x y r s hx hy = hx refl
branch-Answers false x y r s hx hy = hy refl

accept_data-kind : (l : Link) → ((accept_data l).0 ≡ type_ack) ⊎ ((accept_data l).0 ≡ type_nak)
unfolding accept_data
accept_data-kind l = ground arith

accept_data-Loaded : (l : Link) → Loaded l → Loaded (accept_data l).1
unfolding accept_data
accept_data-Loaded l f = ground arith

respond_either :
    (k : ℕ) (n : Node)
    → IsValid n.link
    → Loaded n.link
    → (k ≡ type_ack) ⊎ (k ≡ type_nak)
    → Shows (respond k n) (some (send k (peer n.link))) (peer n.link)
respond_either k n v f (inl e) =
    subst (λ k. Shows (respond k n) (some (send k (peer n.link))) (peer n.link)) (sym e)
      (respond-Shows n v f 2 (omega arith) refl refl)
respond_either k n v f (inr e) =
    subst (λ k. Shows (respond k n) (some (send k (peer n.link))) (peer n.link)) (sym e)
      (respond-Shows n v f 1 (omega arith) refl refl)

sent_with : ℕ × Peer → Option Message × Peer
sent_with r = (some (send r.0 r.1), r.1)

-- A test for a payload that the code and the protocol share.
load_test-Answers :
    (b : Bool) (x y : Node) (m : Message) (q : Payload) (p : Peer)
    → (b ≡ true → Answers x (answer_load m (some q) p))
    → (b ≡ false → Answers y (answer_load m none p))
    → Answers (if b then x else y) (answer_load m (if b then some q else none) p)
load_test-Answers true x y m q p hx hy = hx refl
load_test-Answers false x y m q p hx hy = hy refl

module _ (n : Node) (v : IsValid n.link) (f : Loaded n.link) where
  after_data : Node
  after_data = record n { link = (accept_data n.link).1 }

  accepted-Answers :
      1 < rx_byte n.link 0
      → rx_byte n.link 0 < 256
      → Answers (respond (accept_data n.link).0 after_data) (
          answer_load (message (rx_slot n.link)) (some (tx_payload (rx_slot n.link))) (peer n.link))
  unfolding after_data answer_load sent_with
  accepted-Answers lo hi =
      subst (λ r. Answers (respond (accept_data n.link).0 after_data) (sent_with r))
        (accept_data-peer n.link v lo hi)
        (respond_either (accept_data n.link).0 after_data (accept_data-IsValid n.link v)
          (accept_data-Loaded n.link f) (accept_data-kind n.link))

  after_ack-Answers :
      rx_byte n.link 0 < 256
      → Answers
          (after_ack n)
          (answer_load (message (rx_slot n.link)) (message (rx_slot n.link)).load (peer n.link))
  unfolding after_ack after_data answer_load
  after_ack-Answers hi =
      load_test-Answers (ltb 1 (rx_byte n.link 0)) (respond (accept_data n.link).0 after_data)
        (take_initiative n) (message (rx_slot n.link)) (tx_payload (rx_slot n.link)) (peer n.link)
        (λ t. accepted-Answers (ground arith) hi) (λ _. take_initiative-Shows n v f)

-- An acknowledgement leaves the packet that brought it alone.
rx_slot-ack_packet : (l : Link) → rx_slot (ack_packet l) ≡ rx_slot l
unfolding ack_packet
rx_slot-ack_packet l = ground arith

acked-Answers :
    (n : Node)
    → IsValid n.link
    → Loaded n.link
    → rx_byte n.link 0 < 256
    → (b : Bool)
    → Answers (after_ack (if b then record n { link = ack_packet n.link } else n)) (
        answer_load
          (message (rx_slot n.link))
          (message (rx_slot n.link)).load
          (if b then acknowledge (peer n.link) else peer n.link))
acked-Answers n v f hi false = after_ack-Answers n v f hi
acked-Answers n v f hi true =
    let n' = record n { link = ack_packet n.link } in
    let kept = rx_slot-ack_packet n.link in
    let hi' : rx_byte n'.link 0 < 256 = subst (λ s. get_or s 0 0 < 256) (sym kept) hi in
    let r : Answers (after_ack n')
        (answer_load (message (rx_slot n'.link)) (message (rx_slot n'.link)).load (peer n'.link)) =
      after_ack-Answers n' (ack_packet-IsValid n.link v) (ack_packet-Loaded n.link v f) hi' in
    subst
      (λ p.
        Answers (after_ack n')
          (answer_load (message (rx_slot n.link)) (message (rx_slot n.link)).load p))
      (ack_packet-peer n.link v)
      (subst (λ s. Answers (after_ack n') (answer_load (message s) (message s).load (peer n'.link)))
        kept r)

received-Answers :
    (i : Inputs) (n : Node)
    → IsValid n.link
    → Loaded n.link
    → rx_byte n.link 0 < 256
    → Answers (received i n) (
        if not i.crc_passed
        then (none, peer n.link)
        else answer (message (rx_slot n.link)) (peer n.link))
unfolding received answer
received-Answers i n v f hi =
    branch-Answers (not i.crc_passed) (crc_failed i n) _ (none, peer n.link) _
      (λ _. crc_failed-Shows n v f i)
      (λ _.
        branch-Answers (packet_type n == type_reset) (reset_packet n) (after_ack (acked n))
          (some (bare type_ack), record (peer n.link) { rx_seq = 1 }) _
          (λ _. reset_packet-Shows n v f) (λ _. acked-Answers n v f hi (packet_type n == type_ack)))

-- What the protocol does on an event: the message to send, if any, and the peer afterwards.
abbrev pub handled : Inputs → Event → Message → Peer → Option Message × Peer
handled i on_strobe m p = (initiative p, p)
handled i on_tx m p = (none, p)
handled i on_rx m p = if not i.crc_passed then (none, p) else answer m p
handled i on_rx_timeout m p = (initiative p, p)

-- For every event, `radioMacEventHandler` sends the message that the protocol sends, and leaves the
-- peer that the protocol leaves, with every queued packet still longer than its header. The link is
-- valid, every queued packet is longer than its header, and the received length is a byte.
pub event_handler_refines :
    (i : Inputs) (e : Event) (n : Node)
    → IsValid n.link
    → Loaded n.link
    → rx_byte n.link 0 < 256
    → Shows
        (event_handler i e n)
        (handled i e (message (rx_slot n.link)) (peer n.link)).0
        (handled i e (message (rx_slot n.link)) (peer n.link)).1
unfolding event_handler
event_handler_refines i on_strobe n v f hi = take_initiative-Shows n v f
event_handler_refines i on_tx n v f hi = listen-Shows n v f _
event_handler_refines i on_rx n v f hi = received-Answers i n v f hi
event_handler_refines i on_rx_timeout n v f hi = take_initiative-Shows n v f
