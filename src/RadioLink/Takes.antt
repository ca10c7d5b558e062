-- ===== src/RadioLink/Takes.antt =====
-- What the handler takes in, an acknowledgement or data, against the view.
use wixel_sdk.Base.{
  ℕ, ◌+◌, ◌-◌, ◌/◌, ◌<◌, ◌≡◌, ◌≢◌, refl, sym, ap, ap₂, subst, ◌∙◌, Bool, true, false, not, List, [],
  ◌∷◌, ◌++◌, map, arith, length, get_or, set, bit_and, if◌then◌else◌, ltb, ◌==◌, ℕ_discrete,
  next_index, u8, if_cases, length-map, get_or-set_self, All, length-set, ◌^◌,
}
use mathlib.Core.List.{map-append}
use wixel_sdk.Base.Ring.{ring, ring_pop, ring_push, ring-set_end, length-ring, gap}
use wixel_sdk.RadioLink.Defs.{Link, rx_packet_count, tx_packet_count, type_ack, type_nak}
use wixel_sdk.RadioLink.Handler.{ack_packet, accept_data, hand_over, is_new, next_rx, rx_byte}
use wixel_sdk.RadioLink.Bounds.{IsValid}
use wixel_sdk.RadioLink.Peer.{Peer, peer, rx_contents, rx_payload, tx_payload, acknowledge, take_in}
use wixel_sdk.RadioLink.Refine.{Loaded, first_byte, queue_empty, queue_head, pairs}

-- The answer's kind with the view of the link.
abbrev pub viewed : ℕ × Link → ℕ × Peer
viewed (kind, l) = (kind, peer l)

viewed_if :
    (b c : Bool) {d : Bool} (x y z : ℕ × Link) {x' : ℕ × Peer}
    → c ≡ d
    → (c ≡ true → viewed x ≡ x')
    → viewed (if b then (if c then x else y) else z)
      ≡ (if b then (if d then x' else viewed y) else viewed z)
viewed_if true true x y z {x'} e h = subst (λ d. viewed x ≡ (if d then x' else viewed y)) e (h refl)
viewed_if true false x y z {x'} e h = subst (λ d. viewed y ≡ (if d then x' else viewed y)) e refl
viewed_if false c x y z e h = refl

-- The buffer that the radio receives into.
abbrev pub rx_slot : Link → List ℕ
rx_slot l = get_or l.rx_packet l.rx_int []

module _ (l : Link) (v : IsValid l) where
  -- The oldest packet leaves the queue.
  pub ack_packet-peer : peer (ack_packet l) ≡ acknowledge (peer l)
  unfolding ack_packet acknowledge
  ack_packet-peer = elim (ℕ_discrete l.tx_int l.tx_main) [
    | yes e ↦ ground (arith, queue_empty l v e)
    | no ne ↦ ground (arith, queue_head l v ne)
  ]

  pub ack_packet-Loaded : Loaded l → Loaded (ack_packet l)
  unfolding ack_packet
  ack_packet-Loaded f =
      if_cases Loaded l.sending_reset _ _ (λ _. f)
        (λ _. if_cases Loaded (not (l.tx_int == l.tx_main)) _ _ (λ t. rest (ground arith)) (λ _. f))
    where
      rest :
          l.tx_int ≢ l.tx_main → Loaded (record l { tx_int = next_index tx_packet_count l.tx_int })
      rest ne =
          (subst (All (λ n. 1 < n))
            (ap (map first_byte) (
              ring_pop [] tx_packet_count l.tx_packet l.tx_int l.tx_main v.tx_int_in v.tx_main_in
                ne))
            f).1

  -- The bytes that the handler puts over a received packet make it the payload that was sent.
  handed : List ℕ
  handed = set (set (rx_slot l) 1 (u8 (rx_byte l 0 + 2 ^ 8 - 1))) 0 (bit_and (rx_byte l 1) 30 / 2)

  rx_payload-handed :
      1 < rx_byte l 0 → rx_byte l 0 < 256 → rx_payload handed ≡ tx_payload (rx_slot l)
  unfolding handed
  rx_payload-handed lo hi =
      let (a, b, r, e) =
        pairs (rx_slot l) (omega (arith, v.rx_sized.size_each l.rx_int v.rx_int_in)) in
      let lo' : 1 < a = rw e at lo in
      let hi' : a < 256 = rw e at hi in
      let len : u8 (a + 2 ^ 8 - 1) ≡ a - 1 = omega arith in rw (e, len)

  rx_contents-hand_over :
      next_rx l ≢ l.rx_main
      → 1 < rx_byte l 0
      → rx_byte l 0 < 256
      → rx_contents (hand_over l) ≡ rx_contents l ++ tx_payload (rx_slot l) ∷ []
  unfolding handed
  rx_contents-hand_over ne lo hi =
      ap (map rx_payload) (
        ring_push [] rx_packet_count sized l.rx_main l.rx_int last v.rx_main_in v.rx_int_in
          (omega (arith, length-set l.rx_packet l.rx_int once, v.rx_sized.count_all, v.rx_int_in))
          ne
        ∙ ap₂ (λ xs b. xs ++ b ∷ [])
            (ring-set_end [] rx_packet_count l.rx_packet l.rx_main l.rx_int once v.rx_main_in
              v.rx_int_in)
            same)
      ∙ map-append rx_payload (ring [] rx_packet_count l.rx_packet l.rx_main l.rx_int) (handed ∷ [])
      ∙ ap (λ x. rx_contents l ++ x ∷ []) (rx_payload-handed lo hi)
    where
      once : List ℕ
      once = set (rx_slot l) 1 (u8 (rx_byte l 0 + 2 ^ 8 - 1))

      sized : List (List ℕ)
      sized = set l.rx_packet l.rx_int once

      last : List ℕ
      last = set (get_or sized l.rx_int []) 0 (bit_and (rx_byte l 1) 30 / 2)

      same : last ≡ handed
      same =
          ap (λ b. set b 0 (bit_and (rx_byte l 1) 30 / 2))
            (get_or-set_self l.rx_packet l.rx_int once []
              (omega (arith, v.rx_sized.count_all, v.rx_int_in)))

  length-inbox : length (rx_contents l) ≡ gap rx_packet_count l.rx_main l.rx_int
  length-inbox =
      length-map (ring [] rx_packet_count l.rx_packet l.rx_main l.rx_int) rx_payload
      ∙ length-ring [] rx_packet_count l.rx_packet l.rx_main l.rx_int

  room : ltb (length (rx_contents l)) 2 ≡ not (next_rx l == l.rx_main)
  room = ground (arith, length-inbox, v.rx_main_in, v.rx_int_in)

  -- Data is acknowledged and queued, acknowledged as known, or refused, as the protocol says.
  pub accept_data-peer :
      1 < rx_byte l 0
      → rx_byte l 0 < 256
      → viewed (accept_data l) ≡ take_in (bit_and (rx_byte l 1) 1) (tx_payload (rx_slot l)) (peer l)
  unfolding accept_data take_in
  accept_data-peer lo hi =
      viewed_if (is_new l) (not (next_rx l == l.rx_main)) (type_ack, hand_over l) (type_nak, l)
        (type_ack, l) (sym room)
        (λ t.
          ap
            (λ q. (
              type_ack,
              record (peer l) { rx_seq = bit_and (rx_byte l 1) 1; any = false; inbox = q },
            ))
            (rx_contents-hand_over (ground (arith, t)) lo hi))
