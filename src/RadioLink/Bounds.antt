-- ===== src/RadioLink/Bounds.antt =====
-- The representation invariant of radio_link.c: every index lies in its array, every buffer has its
-- size, the sequence bits are bits, the retry counter is a byte.
use wixel_sdk.Base.{
  ℕ, zero, suc, ◌+◌, ◌-◌, ◌%◌, ◌^◌, ◌<◌, ◌≡◌, sym, ap, ◌∙◌, Bool, if◌then◌else◌, List, [], arith,
  length, byte_of, write_byte, next_index-lt, get_or, set, length-set, get_or-set_self,
  get_or-set_ne, if_both, not, ◌==◌, ltb, bit_xor, ℕ_discrete, u16,
}
use wixel_sdk.Base.Bits.{bit_and_15, bit_and_1}
use wixel_sdk.RadioMac.{Event, on_tx, on_rx, on_rx_timeout, on_strobe}
use wixel_sdk.RadioLink.Defs.{
  Link, Node, rx_packet_count, tx_packet_count, max_packet_size, init, tx_available, tx_queued,
  tx_send_packet, rx_done_with_packet, tx_queue_reset, header_length, type_reset, type_ack,
  type_offset,
}
use wixel_sdk.RadioLink.Handler.{
  Inputs, event_handler, received, take_initiative, tx_reset_packet, tx_data_packet, crc_failed,
  reset_packet, ack_packet, accept_data, respond, after_ack, acked, packet_type, hand_over,
  send_short, data_header,
}

-- `count` buffers of `size` bytes each
pub record Sized (count size : ℕ) (ps : List (List ℕ)) : Type 0 where
  pub count_all : length ps ≡ count
  pub size_each : (i : ℕ) → i < count → length (get_or ps i []) ≡ size

pub record IsValid (l : Link) : Type 0 where
  pub rx_sized : Sized rx_packet_count (1 + max_packet_size + 2) l.rx_packet
  pub tx_sized : Sized tx_packet_count (1 + max_packet_size) l.tx_packet
  pub short_size : length l.short_packet ≡ 2
  pub rx_main_in : l.rx_main < rx_packet_count
  pub rx_int_in : l.rx_int < rx_packet_count
  pub tx_main_in : l.tx_main < tx_packet_count
  pub tx_int_in : l.tx_int < tx_packet_count
  pub rx_seq_bit : l.rx_seq < 2
  pub tx_seq_bit : l.tx_seq < 2
  pub tries_byte : l.tries < 256

-- Writing a byte of one buffer keeps the number and the sizes of the buffers.
pub length-write_byte : (ps : List (List ℕ)) (b i v : ℕ) → length (write_byte ps b i v) ≡ length ps
length-write_byte ps b i v = length-set ps b _

pub size-write_byte :
    (ps : List (List ℕ)) (b i v j : ℕ)
    → b < length ps
    → length (get_or (write_byte ps b i v) j []) ≡ length (get_or ps j [])
size-write_byte ps b i v j lt = elim (ℕ_discrete b j) [
  | yes e ↦
      ap (λ k. length (get_or (write_byte ps b i v) k [])) (sym e)
      ∙ ap length (get_or-set_self ps b (set (get_or ps b []) i v) [] lt)
      ∙ length-set (get_or ps b []) i v
      ∙ ap (λ k. length (get_or ps k [])) e
  | no ne ↦ ap length (get_or-set_ne ps b j (set (get_or ps b []) i v) [] ne)
]

-- Free and used transmit buffers make up all but one, and the number of used ones is the distance
-- of the two indices.
pub tx_available-add-tx_queued :
    (l : Link)
    → IsValid l
    → (tx_available l + tx_queued l ≡ tx_packet_count - 1)
      × (tx_queued l ≡ (l.tx_main + tx_packet_count - l.tx_int) % tx_packet_count)
unfolding tx_available tx_queued
tx_available-add-tx_queued l v = ground (
  arith,
  bit_and_15 (u16 (l.tx_int + 2 ^ 16 - l.tx_main + 2 ^ 16 - 1)),
  bit_and_15 (u16 (l.tx_main + 2 ^ 16 - l.tx_int)),
  v.tx_main_in,
  v.tx_int_in,
)

bit_xor-one-lt : (b : ℕ) → b < 2 → bit_xor b 1 < 2
bit_xor-one-lt zero h = omega arith
bit_xor-one-lt (suc zero) h = omega arith
bit_xor-one-lt (suc (suc b)) h = absurd (omega arith)

pub Sized-write_byte :
    {count size : ℕ} (ps : List (List ℕ)) (b i x : ℕ)
    → Sized count size ps
    → b < count
    → Sized count size (write_byte ps b i x)
Sized-write_byte ps b i x z lt = record {
  count_all = length-write_byte ps b i x ∙ z.count_all;
  size_each = λ j h. size-write_byte ps b i x j (omega (arith, z.count_all)) ∙ z.size_each j h;
}

tx_data_packet-IsValid : (t : ℕ) (n : Node) → IsValid n.link → IsValid (tx_data_packet t n).link
unfolding tx_data_packet
tx_data_packet-IsValid t n v = ground (
  arith,
  Sized-write_byte n.link.tx_packet n.link.tx_int type_offset (data_header n.link t) v.tx_sized
      v.tx_int_in,
)

send_short-IsValid : (h : ℕ) (n : Node) → IsValid n.link → IsValid (send_short h n).link
send_short-IsValid h n v =
    ground (arith, length-set n.link.short_packet 0 1, length-set (set n.link.short_packet 0 1) 1 h)

take_initiative-IsValid : (n : Node) → IsValid n.link → IsValid (take_initiative n).link
unfolding take_initiative tx_reset_packet
take_initiative-IsValid n v =
    ground (arith, tx_data_packet-IsValid 0 n v, send_short-IsValid 192 n v)

pub ack_packet-IsValid : (l : Link) → IsValid l → IsValid (ack_packet l)
unfolding ack_packet
ack_packet-IsValid l v = ground (arith, bit_xor-one-lt l.tx_seq v.tx_seq_bit)

hand_over-IsValid : (l : Link) → IsValid l → IsValid (hand_over l)
hand_over-IsValid l v = record {
  rx_sized =
      Sized-write_byte _ l.rx_int 0 _
        (Sized-write_byte l.rx_packet l.rx_int 1 _ v.rx_sized v.rx_int_in) v.rx_int_in;
  tx_sized = v.tx_sized;
  short_size = v.short_size;
  rx_main_in = v.rx_main_in;
  rx_int_in = next_index-lt rx_packet_count l.rx_int v.rx_int_in;
  tx_main_in = v.tx_main_in;
  tx_int_in = v.tx_int_in;
  rx_seq_bit = omega (arith, bit_and_1 (byte_of l.rx_packet l.rx_int 1));
  tx_seq_bit = v.tx_seq_bit;
  tries_byte = v.tries_byte;
}

pub accept_data-IsValid : (l : Link) → IsValid l → IsValid (accept_data l).1
unfolding accept_data
accept_data-IsValid l v = ground (arith, hand_over-IsValid l v)

respond-IsValid : (t : ℕ) (n : Node) → IsValid n.link → IsValid (respond t n).link
unfolding respond
respond-IsValid t n v = ground (arith, tx_data_packet-IsValid t n v, send_short-IsValid t n v)

after_ack-IsValid : (n : Node) → IsValid n.link → IsValid (after_ack n).link
unfolding after_ack
after_ack-IsValid n v =
    if_both (λ (k : Node). IsValid k.link)
      (ltb header_length (byte_of n.link.rx_packet n.link.rx_int 0))
      (respond-IsValid _ _ (accept_data-IsValid n.link v)) (take_initiative-IsValid n v)

abbrev ValidNode : Node → Type 0
ValidNode n = IsValid n.link

both_branches :
    (b : Bool) (x y : Node) → IsValid x.link → IsValid y.link → IsValid (if b then x else y).link
both_branches b x y hx hy = if_both ValidNode b hx hy

reset_packet-IsValid : (n : Node) → IsValid n.link → IsValid (reset_packet n).link
unfolding reset_packet
reset_packet-IsValid n v =
    ground
      (arith, length-set n.link.short_packet 0 1, length-set (set n.link.short_packet 0 1) 1 128)

crc_failed-IsValid : (i : Inputs) (n : Node) → IsValid n.link → IsValid (crc_failed i n).link
unfolding crc_failed
crc_failed-IsValid i n v = if_both ValidNode (not (n.link.tx_int == n.link.tx_main)) v v

received-IsValid : (i : Inputs) (n : Node) → IsValid n.link → IsValid (received i n).link
unfolding received
received-IsValid i n v =
    both_branches (not i.crc_passed) (crc_failed i n) _ (crc_failed-IsValid i n v) (
      both_branches (packet_type n == type_reset) (reset_packet n) (after_ack (acked n))
        (reset_packet-IsValid n v)
        (after_ack-IsValid (acked n) (
          both_branches (packet_type n == type_ack) (record n { link = ack_packet n.link }) n
            (ack_packet-IsValid n.link v) v)))

-- Every event keeps the invariant.
pub event_handler-IsValid :
    (i : Inputs) (e : Event) (n : Node) → IsValid n.link → IsValid (event_handler i e n).link
unfolding event_handler
event_handler-IsValid i on_strobe n v = take_initiative-IsValid n v
event_handler-IsValid i on_tx n v = v
event_handler-IsValid i on_rx n v = received-IsValid i n v
event_handler-IsValid i on_rx_timeout n v = take_initiative-IsValid n v

-- So does everything that the main loop calls, and the invariant holds before `radioLinkInit`.
pub main_loop-IsValid :
    (channel payload_type : ℕ) (n : Node)
    → IsValid n.link
    → IsValid (init channel n).link
      × IsValid (tx_send_packet payload_type n).link
      × IsValid (rx_done_with_packet n.link)
      × IsValid (tx_queue_reset n.link)
unfolding init tx_send_packet rx_done_with_packet tx_queue_reset
main_loop-IsValid channel payload_type n v = (
  ground arith,
  record {
    rx_sized = v.rx_sized;
    tx_sized =
        Sized-write_byte _ n.link.tx_main 1 _
          (Sized-write_byte n.link.tx_packet n.link.tx_main 0 _ v.tx_sized v.tx_main_in)
          v.tx_main_in;
    short_size = v.short_size;
    rx_main_in = v.rx_main_in;
    rx_int_in = v.rx_int_in;
    tx_main_in = next_index-lt tx_packet_count n.link.tx_main v.tx_main_in;
    tx_int_in = v.tx_int_in;
    rx_seq_bit = v.rx_seq_bit;
    tx_seq_bit = v.tx_seq_bit;
    tries_byte = v.tries_byte;
  },
  ground arith,
  ground arith,
)
