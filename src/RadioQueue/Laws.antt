-- ===== src/RadioQueue/Laws.antt =====
-- What the two circular arrays of radio_queue.c hold, and what each event does to them.
use wixel_sdk.Base.{
  ℕ, ◌+◌, ◌-◌, ◌^◌, ◌<◌, ◌≡◌, ◌≢◌, refl, sym, ap, ◌∙◌, Bool, true, false, List, [], ◌∷◌, ◌++◌,
  arith, length, u16, byte_of, get_or, if◌then◌else◌, ltb, ◌==◌, not, ◌&&◌, ◌||◌, drop, next_index,
  if_both,
}
use wixel_sdk.Base.Bits.{bit_and_15}
use wixel_sdk.Base.Ring.{ring, ring_pop, ring_grow, length-ring, span}
use wixel_sdk.RadioMac.{Event, on_tx, on_rx, on_rx_timeout, on_strobe}
use wixel_sdk.RadioQueue.{
  RadioQueue, Inputs, rx_packet_count, tx_packet_count, tx_available, tx_queued, tx_send_packet,
  rx_done_with_packet, event_handler, received, take_initiative,
}

pub record IsValid (q : RadioQueue) : Type 0 where
  pub rx_main_in : q.rx_main < rx_packet_count
  pub rx_int_in : q.rx_int < rx_packet_count
  pub tx_main_in : q.tx_main < tx_packet_count
  pub tx_int_in : q.tx_int < tx_packet_count

abbrev pub to_send : RadioQueue → List (List ℕ)
to_send q = ring [] tx_packet_count q.tx_packet q.tx_int q.tx_main

abbrev pub inbox : RadioQueue → List (List ℕ)
inbox q = ring [] rx_packet_count q.rx_packet q.rx_main q.rx_int

-- The buffer that the radio receives into.
abbrev pub rx_slot : RadioQueue → List ℕ
rx_slot q = get_or q.rx_packet q.rx_int []

-- Free and used transmit buffers make up all but one, and `radioQueueTxQueued` counts the packets to
-- send.
pub tx_counts :
    (q : RadioQueue)
    → IsValid q
    → (tx_available q + tx_queued q ≡ tx_packet_count - 1) × (tx_queued q ≡ length (to_send q))
unfolding tx_available tx_queued
tx_counts q v = ground (
  arith,
  bit_and_15 (u16 (q.tx_int + 2 ^ 16 - q.tx_main + 2 ^ 16 - 1)),
  bit_and_15 (u16 (q.tx_main + 2 ^ 16 - q.tx_int)),
  length-ring [] tx_packet_count q.tx_packet q.tx_int q.tx_main,
  v.tx_main_in,
  v.tx_int_in,
)

-- The specification of an event: a packet is sent once; a packet is received if its CRC is right or
-- wrong ones are allowed, if it has data, and if the inbox holds fewer than two.
pub data Outcome : Type 0 where
  outcome : List (List ℕ) → List (List ℕ) → Outcome

unfoldable pub on_event : Inputs → Bool → List ℕ → Event → List (List ℕ) → List (List ℕ) → Outcome
on_event i allow slot on_tx sending box = outcome (drop 1 sending) box
on_event i allow slot on_rx sending box =
    if (allow || i.crc_passed) && (ltb 0 (get_or slot 0 0) && ltb (length box) 2)
    then outcome sending (box ++ slot ∷ [])
    else outcome sending box
on_event i allow slot on_strobe sending box = outcome sending box
on_event i allow slot on_rx_timeout sending box = outcome sending box

abbrev pub outcome_of : RadioQueue → Outcome
outcome_of q = outcome (to_send q) (inbox q)

module _ (q : RadioQueue) (v : IsValid q) where
  sent :
      q.tx_int ≢ q.tx_main
      → drop 1 (to_send q)
        ≡ ring [] tx_packet_count q.tx_packet (next_index tx_packet_count q.tx_int) q.tx_main
  sent ne =
      ap (drop 1)
        (ring_pop [] tx_packet_count q.tx_packet q.tx_int q.tx_main v.tx_int_in v.tx_main_in ne)

  grown :
      next_index rx_packet_count q.rx_int ≢ q.rx_main
      → ring [] rx_packet_count q.rx_packet q.rx_main (next_index rx_packet_count q.rx_int)
        ≡ inbox q ++ rx_slot q ∷ []
  grown ne = ring_grow [] rx_packet_count q.rx_packet q.rx_main q.rx_int v.rx_main_in v.rx_int_in ne

  room : ltb (length (inbox q)) 2 ≡ not (next_index rx_packet_count q.rx_int == q.rx_main)
  room = ground (
    arith,
    length-ring [] rx_packet_count q.rx_packet q.rx_main q.rx_int,
    v.rx_main_in,
    v.rx_int_in,
  )

take_initiative-outcome : (q : RadioQueue) → outcome_of (take_initiative q) ≡ outcome_of q
unfolding take_initiative
take_initiative-outcome q =
    if_both (λ (r : RadioQueue). outcome_of r ≡ outcome_of q) (not (q.tx_int == q.tx_main)) refl
      refl

-- The tests of the code and of the specification, by their values.
same_tests :
    (a c l r s : Bool) (x y z : RadioQueue) (o o' : Outcome)
    → s ≡ r
    → outcome_of x ≡ o
    → (r ≡ true → outcome_of y ≡ o')
    → outcome_of z ≡ o
    → outcome_of
        (if not a && not c then x else take_initiative (if l then (if r then y else z) else z))
      ≡ (if (a || c) && (l && s) then o' else o)
same_tests false false l r s x y z o o' e hx hy hz = hx
same_tests false true false r s x y z o o' e hx hy hz = take_initiative-outcome z ∙ hz
same_tests true c false r s x y z o o' e hx hy hz = take_initiative-outcome z ∙ hz
same_tests false true true true s x y z o o' e hx hy hz = rw e (take_initiative-outcome y ∙ hy refl)
same_tests false true true false s x y z o o' e hx hy hz = rw e (take_initiative-outcome z ∙ hz)
same_tests true c true true s x y z o o' e hx hy hz = rw e (take_initiative-outcome y ∙ hy refl)
same_tests true c true false s x y z o o' e hx hy hz = rw e (take_initiative-outcome z ∙ hz)

received-outcome :
    (i : Inputs) (q : RadioQueue)
    → IsValid q
    → outcome_of (received i q)
      ≡ on_event i q.allow_crc_errors (rx_slot q) on_rx (to_send q) (inbox q)
unfolding received on_event
received-outcome i q v =
    same_tests q.allow_crc_errors i.crc_passed (ltb 0 (byte_of q.rx_packet q.rx_int 0))
      (not (next_index rx_packet_count q.rx_int == q.rx_main)) (ltb (length (inbox q)) 2) _
      (record q { rx_int = next_index rx_packet_count q.rx_int }) q (outcome_of q)
      (outcome (to_send q) (inbox q ++ rx_slot q ∷ [])) (room q v)
      (if_both (λ (r : RadioQueue). outcome_of r ≡ outcome_of q) (not (q.tx_int == q.tx_main)) refl
        refl)
      (λ t. ap (outcome (to_send q)) (grown q v (ground (arith, t)))) refl

-- For every event, the packets left to send and the inbox are those of the specification. The
-- indices are in bounds, and a packet that has been sent was in the queue.
pub event_handler_outcome :
    (i : Inputs) (e : Event) (q : RadioQueue)
    → IsValid q
    → (e ≡ on_tx → to_send q ≢ [])
    → outcome_of (event_handler i e q)
      ≡ on_event i q.allow_crc_errors (rx_slot q) e (to_send q) (inbox q)
unfolding event_handler on_event
event_handler_outcome i on_strobe q v h = take_initiative-outcome q
event_handler_outcome i on_tx q v h =
    ap (λ s. outcome s (inbox q)) (sym (sent q v (λ e. h refl (empty_ring e))))
  where
    empty_ring : q.tx_int ≡ q.tx_main → to_send q ≡ []
    empty_ring e = ap (span [] tx_packet_count q.tx_packet q.tx_int) {y = 0} (ground arith)
event_handler_outcome i on_rx q v h = received-outcome i q v
event_handler_outcome i on_rx_timeout q v h = take_initiative-outcome q

-- Every event keeps the indices in bounds, as does every call of the main loop.
pub calls-IsValid :
    (i : Inputs) (e : Event) (q : RadioQueue)
    → IsValid q
    → IsValid (event_handler i e q) × IsValid (tx_send_packet q) × IsValid (rx_done_with_packet q)
unfolding event_handler received take_initiative tx_send_packet rx_done_with_packet
calls-IsValid i on_strobe q v = (ground arith, ground arith, ground arith)
calls-IsValid i on_tx q v = (ground arith, ground arith, ground arith)
calls-IsValid i on_rx q v = (ground arith, ground arith, ground arith)
calls-IsValid i on_rx_timeout q v = (ground arith, ground arith, ground arith)
