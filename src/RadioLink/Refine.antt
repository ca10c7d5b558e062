-- ===== src/RadioLink/Refine.antt =====
-- The interrupt handler of radio_link.c does what the protocol on the abstract view does.
use wixel_sdk.Base.{
  ℕ, ◌+◌, ◌-◌, ◌*◌, ◌/◌, ◌%◌, ◌≤◌, ◌<◌, ◌≡◌, ◌≢◌, refl, sym, ap, ap₂, ◌∙◌, true, List, [], ◌∷◌,
  some, arith, length, get_or, set, take, map, bit_and, bit_or, All, subst, ◌==◌, ==_iff,
  write_byte, next_index, get_or-set_self,
}
use wixel_sdk.Base.Bits.{all_below, all_below-test, bit_and_30}
use wixel_sdk.Base.Ring.{span, ring, ring_pop, ring_rewrite}
use wixel_sdk.RadioLink.Defs.{Link, tx_packet_count, type_offset}
use wixel_sdk.RadioLink.Handler.{data_header}
use wixel_sdk.RadioLink.Bounds.{IsValid}
use wixel_sdk.RadioLink.Peer.{Payload, tx_payload, message, peer, tx_contents, carry, send}

-- The header of payload type `n % 16`, packet type `n / 16 % 4` and sequence bit `n / 64`.
abbrev header_of : ℕ → ℕ
header_of n = bit_or (bit_or (n % 16 * 2) (n / 16 % 4 * 64)) (n / 64)

payload_table : all_below 128 (λ n. bit_and (header_of n) 30 == n % 16 * 2) ≡ true
unfolding all_below
payload_table = refl

kind_table : all_below 128 (λ n. bit_and (header_of n) 192 == n / 16 % 4 * 64) ≡ true
unfolding all_below
kind_table = refl

seq_table : all_below 128 (λ n. bit_and (header_of n) 1 == n / 64) ≡ true
unfolding all_below
seq_table = refl

-- The three parts of the header that `txDataPacket` writes.
header_bits :
    (b j s : ℕ)
    → j < 4
    → s < 2
    → let h = bit_or (bit_or (bit_and b 30) (j * 64)) s in
      (bit_and h 30 ≡ bit_and b 30) × (bit_and h 192 ≡ j * 64) × (bit_and h 1 ≡ s)
header_bits b j s hj hs = (
  ap (λ h. bit_and h 30) same
      ∙ (==_iff _ _).0 (all_below-test _ 128 small payload_table)
      ∙ omega (arith, bit_and_30 b),
  ap (λ h. bit_and h 192) same
      ∙ (==_iff _ _).0 (all_below-test _ 128 small kind_table)
      ∙ omega arith,
  ap (λ h. bit_and h 1) same ∙ (==_iff _ _).0 (all_below-test _ 128 small seq_table) ∙ omega arith,
)
  where
    n : ℕ
    n = b / 2 % 16 + 16 * j + 64 * s

    small : n < 128
    small = omega arith

    same : bit_or (bit_or (bit_and b 30) (j * 64)) s ≡ header_of n
    same =
        let low : bit_and b 30 ≡ n % 16 * 2 = omega (arith, bit_and_30 b) in
        let mid : j * 64 ≡ n / 16 % 4 * 64 = omega arith in
        let top : s ≡ n / 64 = omega arith in ap₂ bit_or (ap₂ bit_or low mid) top

-- A buffer of at least two bytes.
pub pairs : (xs : List ℕ) → 2 ≤ length xs → (a b : ℕ) × (r : List ℕ) × (xs ≡ a ∷ b ∷ r)
pairs [] h = absurd (omega arith)
pairs (a ∷ []) h = absurd (omega arith)
pairs (a ∷ b ∷ r) h = (a, b, r, refl)

-- Writing the header leaves the payload alone, and makes the buffer a message of the kind written.
module _ (buf : List ℕ) (j s : ℕ) (hj : j < 4) (hs : s < 2) (long : 2 ≤ length buf) where
  abbrev headed : List ℕ
  headed = set buf 1 (bit_or (bit_or (bit_and (get_or buf 1 0) 30) (j * 64)) s)

  tx_payload-headed : tx_payload headed ≡ tx_payload buf
  tx_payload-headed =
      let (a, b, r, e) = pairs buf long in
      rw e (ap (λ k. record { kind = k / 2; bytes = take (a - 1) r }) (header_bits b j s hj hs).0)

  message-headed :
      1 < get_or buf 0 0
      → message headed ≡ record { kind = j * 64; seq = s; load = some (tx_payload buf) }
  message-headed full =
      let (a, b, r, e) = pairs buf long in
      let bits = header_bits b j s hj hs in
      let full' : 1 < a = rw e at full in rw e (ground (arith, bits.0, bits.1, bits.2))

abbrev pub first_byte : List ℕ → ℕ
first_byte buf = get_or buf 0 0

-- Every queued packet has a payload of at least one byte.
abbrev pub Loaded : Link → Type 0
Loaded l =
    All (λ n. 1 < n) (map first_byte (ring [] tx_packet_count l.tx_packet l.tx_int l.tx_main))

abbrev pub tx_slot : Link → List ℕ
tx_slot l = get_or l.tx_packet l.tx_int []

abbrev pub queue_rest : Link → List Payload
queue_rest l =
    map tx_payload
      (ring [] tx_packet_count l.tx_packet (next_index tx_packet_count l.tx_int) l.tx_main)

module _ (l : Link) (v : IsValid l) where
  pub queue_empty : l.tx_int ≡ l.tx_main → tx_contents l ≡ []
  queue_empty e =
      ap (λ n. map tx_payload (span [] tx_packet_count l.tx_packet l.tx_int n)) {y = 0}
        (ground arith)

  pub queue_head : l.tx_int ≢ l.tx_main → tx_contents l ≡ tx_payload (tx_slot l) ∷ queue_rest l
  queue_head ne =
      ap (map tx_payload)
        (ring_pop [] tx_packet_count l.tx_packet l.tx_int l.tx_main v.tx_int_in v.tx_main_in ne)

  head_loaded : l.tx_int ≢ l.tx_main → Loaded l → 1 < first_byte (tx_slot l)
  head_loaded ne h =
      (subst (All (λ n. 1 < n))
        (ap (map first_byte)
          (ring_pop [] tx_packet_count l.tx_packet l.tx_int l.tx_main v.tx_int_in v.tx_main_in ne))
        h).0

  tx_slot_long : 2 ≤ length (tx_slot l)
  tx_slot_long = omega (arith, v.tx_sized.size_each l.tx_int v.tx_int_in)

  -- Writing the header of the oldest queued packet changes nothing of the view.
  pub peer-headed :
      (j : ℕ)
      → j < 4
      → peer (record l {
        tx_packet = write_byte l.tx_packet l.tx_int type_offset (data_header l (j * 64));
      })
        ≡ peer l
  peer-headed j hj =
      ap (λ q. record (peer l) { queue = q })
        (ring_rewrite [] tx_packet_count tx_payload l.tx_packet l.tx_int _ l.tx_int l.tx_main
          (tx_payload-headed (tx_slot l) j l.tx_seq hj v.tx_seq_bit tx_slot_long))

  pub loaded-headed :
      (h : ℕ) → Loaded l → Loaded (record l { tx_packet = write_byte l.tx_packet l.tx_int 1 h })
  loaded-headed h f =
      subst (All (λ n. 1 < n))
        (sym (
          ring_rewrite [] tx_packet_count first_byte l.tx_packet l.tx_int _ l.tx_int l.tx_main
            first_kept))
        f
    where
      first_kept : first_byte (set (tx_slot l) 1 h) ≡ first_byte (tx_slot l)
      first_kept = let (a, b, r, e) = pairs (tx_slot l) tx_slot_long in rw e

  pub sends_head :
      (j : ℕ)
      → j < 4
      → l.tx_int ≢ l.tx_main
      → Loaded l
      → message (
          get_or (write_byte l.tx_packet l.tx_int type_offset (data_header l (j * 64))) l.tx_int [])
        ≡ send (j * 64) (peer l)
  sends_head j hj ne f =
      ap message (
        get_or-set_self l.tx_packet l.tx_int _ []
          (omega (arith, v.tx_sized.count_all, v.tx_int_in)))
      ∙ message-headed (tx_slot l) j l.tx_seq hj v.tx_seq_bit tx_slot_long (head_loaded ne f)
      ∙ ap (carry (j * 64) l.tx_seq) (sym (queue_head ne))
