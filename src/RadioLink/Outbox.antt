-- ===== src/RadioLink/Outbox.antt =====
-- What the main loop does to the queue of packets to send and to the inbox.
use wixel_sdk.Base.{
  subst, sym, All, All-snoc, write_byte, ℕ, ◌+◌, ◌-◌, ◌*◌, ◌/◌, ◌^◌, ◌≤◌, ◌<◌, ◌≡◌, ◌≢◌, ap, ap₂,
  ◌∙◌, List, [], ◌∷◌, ◌++◌, map, arith, length, get_or, set, take, drop, u8, u16, bit_and, byte_of,
  next_index, get_or-set_self, length-set,
}
use mathlib.Core.List.{map-append}
use wixel_sdk.Base.Bits.{bit_and_30, bit_and_15}
use wixel_sdk.Base.Ring.{ring, ring_push, ring_pop, ring-set_end}
use wixel_sdk.RadioLink.Defs.{
  Link, Node, tx_packet_count, rx_packet_count, tx_send_packet, tx_available, rx_done_with_packet,
}
use wixel_sdk.RadioLink.Bounds.{IsValid, Sized-write_byte}
use wixel_sdk.RadioLink.Peer.{Payload, tx_payload, rx_payload, tx_contents, rx_contents}
use wixel_sdk.RadioLink.Refine.{pairs, Loaded, first_byte}

-- The payload that the main loop has written to a buffer: its length, then its bytes.
abbrev pub written : ℕ → List ℕ → Payload
written kind buf = record { kind = kind; bytes = take (get_or buf 1 0) (drop 2 buf) }

abbrev pub main_slot : Link → List ℕ
main_slot l = get_or l.tx_packet l.tx_main []

tx_payload-sealed :
    (kind : ℕ) (buf : List ℕ)
    → 2 ≤ length buf
    → kind < 16
    → get_or buf 1 0 < 255
    → tx_payload (set (set buf 0 (u8 (get_or buf 1 0 + 1))) 1 (u8 (kind * 2))) ≡ written kind buf
tx_payload-sealed kind buf long small short =
    let (a, b, r, e) = pairs buf long in
    let short' : b < 255 = rw e at short in
    let bits : bit_and (u8 (kind * 2)) 30 / 2 ≡ kind = omega (arith, bit_and_30 (u8 (kind * 2))) in
    let len : u8 (b + 1) - 1 ≡ b = omega arith in rw e (rw (bits, len))

-- The buffer as the interrupt will read it.
abbrev sealed_slot : ℕ → Link → List ℕ
sealed_slot kind l =
    set (set (main_slot l) 0 (u8 (byte_of l.tx_packet l.tx_main 1 + 1))) 1 (u8 (kind * 2))

ring-tx_send_packet :
    (kind : ℕ) (n : Node)
    → IsValid n.link
    → tx_available n.link ≢ 0
    → let l' = (tx_send_packet kind n).link in
      ring [] tx_packet_count l'.tx_packet l'.tx_int l'.tx_main
      ≡ ring [] tx_packet_count n.link.tx_packet n.link.tx_int n.link.tx_main
        ++ sealed_slot kind n.link ∷ []
unfolding tx_send_packet tx_available
ring-tx_send_packet kind n v free =
    ring_push [] tx_packet_count sized n.link.tx_int n.link.tx_main last v.tx_int_in v.tx_main_in
      (omega (
        arith,
        length-set n.link.tx_packet n.link.tx_main once,
        v.tx_sized.count_all,
        v.tx_main_in,
      ))
      room
    ∙ ap₂ (λ xs b. xs ++ b ∷ [])
        (ring-set_end [] tx_packet_count n.link.tx_packet n.link.tx_int n.link.tx_main once
          v.tx_int_in v.tx_main_in)
        same
  where
    once : List ℕ
    once = set (main_slot n.link) 0 (u8 (byte_of n.link.tx_packet n.link.tx_main 1 + 1))

    sized : List (List ℕ)
    sized = set n.link.tx_packet n.link.tx_main once

    last : List ℕ
    last = set (get_or sized n.link.tx_main []) 1 (u8 (kind * 2))

    same : last ≡ sealed_slot kind n.link
    same =
        ap (λ b. set b 1 (u8 (kind * 2)))
          (get_or-set_self n.link.tx_packet n.link.tx_main once []
            (omega (arith, v.tx_sized.count_all, v.tx_main_in)))

    room : next_index tx_packet_count n.link.tx_main ≢ n.link.tx_int
    room = ground (
      arith,
      bit_and_15 (u16 (n.link.tx_int + 2 ^ 16 - n.link.tx_main + 2 ^ 16 - 1)),
      v.tx_main_in,
      v.tx_int_in,
      free,
    )

-- A packet that is sent joins the end of the queue, with the type and the bytes that were written.
-- The type has 4 bits, the length is below 255, and a buffer is free.
pub tx_contents-tx_send_packet :
    (kind : ℕ) (n : Node)
    → IsValid n.link
    → kind < 16
    → byte_of n.link.tx_packet n.link.tx_main 1 < 255
    → tx_available n.link ≢ 0
    → tx_contents (tx_send_packet kind n).link
      ≡ tx_contents n.link ++ written kind (main_slot n.link) ∷ []
tx_contents-tx_send_packet kind n v small short free =
    ap (map tx_payload) (ring-tx_send_packet kind n v free)
    ∙ map-append tx_payload (ring [] tx_packet_count n.link.tx_packet n.link.tx_int n.link.tx_main)
        (sealed_slot kind n.link ∷ [])
    ∙ ap (λ x. tx_contents n.link ++ x ∷ [])
        (tx_payload-sealed kind (main_slot n.link)
          (omega (arith, v.tx_sized.size_each n.link.tx_main v.tx_main_in)) small short)

-- Packets of at least one byte stay longer than their header.
pub tx_send_packet-Loaded :
    (kind : ℕ) (n : Node)
    → IsValid n.link
    → 0 < byte_of n.link.tx_packet n.link.tx_main 1
    → byte_of n.link.tx_packet n.link.tx_main 1 < 255
    → tx_available n.link ≢ 0
    → Loaded n.link
    → Loaded (tx_send_packet kind n).link
tx_send_packet-Loaded kind n v some short free f =
    subst (All (λ k. 1 < k))
      (sym (
        ap (map first_byte) (ring-tx_send_packet kind n v free)
        ∙ map-append first_byte
            (ring [] tx_packet_count n.link.tx_packet n.link.tx_int n.link.tx_main)
            (sealed_slot kind n.link ∷ [])))
      (All-snoc _ _ _ f sealed_long)
  where
    sealed_long : 1 < first_byte (sealed_slot kind n.link)
    sealed_long =
        let (a, b, r, e) =
          pairs (main_slot n.link)
            (omega (arith, v.tx_sized.size_each n.link.tx_main v.tx_main_in)) in
        let some' : 0 < b = rw e at some in
        let short' : b < 255 = rw e at short in rw e (omega arith)

-- A write to the packet being filled: the invariant, the queue, and the packet.
module _ (l : Link) (i x : ℕ) (v : IsValid l) where
  abbrev pub write_main : Link
  write_main = record l { tx_packet = write_byte l.tx_packet l.tx_main i x }

  pub write_main-IsValid : IsValid write_main
  write_main-IsValid = record {
    rx_sized = v.rx_sized;
    tx_sized = Sized-write_byte l.tx_packet l.tx_main i x v.tx_sized v.tx_main_in;
    short_size = v.short_size;
    rx_main_in = v.rx_main_in;
    rx_int_in = v.rx_int_in;
    tx_main_in = v.tx_main_in;
    tx_int_in = v.tx_int_in;
    rx_seq_bit = v.rx_seq_bit;
    tx_seq_bit = v.tx_seq_bit;
    tries_byte = v.tries_byte;
  }

  pub main_slot-write_main : main_slot write_main ≡ set (main_slot l) i x
  main_slot-write_main =
      get_or-set_self l.tx_packet l.tx_main _ [] (omega (arith, v.tx_sized.count_all, v.tx_main_in))

  pub tx_contents-write_main : tx_contents write_main ≡ tx_contents l
  tx_contents-write_main =
      ap (map tx_payload)
        (ring-set_end [] tx_packet_count l.tx_packet l.tx_int l.tx_main _ v.tx_int_in v.tx_main_in)

  pub write_main-Loaded : Loaded l → Loaded write_main
  write_main-Loaded f =
      subst (λ r. All (λ k. 1 < k) (map first_byte r))
        (sym (
          ring-set_end [] tx_packet_count l.tx_packet l.tx_int l.tx_main _ v.tx_int_in
            v.tx_main_in))
        f

-- The main loop takes the oldest packet out of the inbox.
pub rx_contents-rx_done_with_packet :
    (l : Link)
    → IsValid l
    → l.rx_main ≢ l.rx_int
    → rx_contents l
      ≡ rx_payload (get_or l.rx_packet l.rx_main []) ∷ rx_contents (rx_done_with_packet l)
unfolding rx_done_with_packet
rx_contents-rx_done_with_packet l v ne =
    ap (map rx_payload)
      (ring_pop [] rx_packet_count l.rx_packet l.rx_main l.rx_int v.rx_main_in v.rx_int_in ne)
