-- ===== src/RadioLink/Defs.antt =====
-- The variables of radio_link.c and the functions that the main loop calls.
use wixel_sdk.Base.{
  ℕ, ◌+◌, ◌-◌, ◌*◌, ◌^◌, Bool, true, false, not, List, [], ◌∷◌, Option, none, some, if◌then◌else◌,
  ◌==◌, byte_of, write_byte, next_index, ltb, u8, u16, bit_and, truth, replicate,
}
use wixel_sdk.RadioMac.{Mac, Command, sidle, stx, command, radio_mac_strobe, radio_mac_init}

-- RADIO_LINK_PAYLOAD_SIZE and what radio_link.c derives from it
abbrev pub payload_size : ℕ
payload_size = 18

abbrev pub header_length : ℕ
header_length = 1

abbrev pub max_packet_size : ℕ
max_packet_size = payload_size + header_length

abbrev pub length_offset : ℕ
length_offset = 0

abbrev pub type_offset : ℕ
type_offset = 1

abbrev pub payload_type_mask : ℕ
payload_type_mask = 0b00011110

abbrev pub packet_type_mask : ℕ
packet_type_mask = 192

abbrev pub type_ping : ℕ
type_ping = 0

abbrev pub type_nak : ℕ
type_nak = 64

abbrev pub type_ack : ℕ
type_ack = 128

abbrev pub type_reset : ℕ
type_reset = 192

abbrev pub rx_packet_count : ℕ
rx_packet_count = 3

abbrev pub tx_packet_count : ℕ
tx_packet_count = 16

-- The packet buffers in XDATA: `radioLinkTxPacket[i]`, `radioLinkRxPacket[i]` and `shortTxPacket`.
pub data Buffer : Type 0 where
  tx_buffer : ℕ → Buffer
  rx_buffer : ℕ → Buffer
  short_buffer : Buffer

pub record Link : Type 0 where
  pub rx_packet : List (List ℕ)
  pub rx_main : ℕ
  pub rx_int : ℕ
  pub tx_packet : List (List ℕ)
  pub tx_main : ℕ
  pub tx_int : ℕ
  pub short_packet : List ℕ
  pub tries : ℕ
  pub sending_reset : Bool
  pub accept_any : Bool
  pub reset_received : Bool
  pub rx_seq : ℕ
  pub tx_seq : ℕ
  pub activity : Bool

-- The link and the radio below it, as the functions that call both pass them on.
pub record Node : Type 0 where
  pub link : Link
  pub mac : Mac Buffer

-- The variables before `radioLinkInit`: static storage is zero.
unfoldable pub static_link : Link
static_link = record {
  rx_packet = replicate rx_packet_count (replicate (1 + max_packet_size + 2) 0);
  rx_main = 0;
  rx_int = 0;
  tx_packet = replicate tx_packet_count (replicate (1 + max_packet_size) 0);
  tx_main = 0;
  tx_int = 0;
  short_packet = 0 ∷ 0 ∷ [];
  tries = 0;
  sending_reset = false;
  accept_any = false;
  reset_received = false;
  rx_seq = 0;
  tx_seq = 0;
  activity = false;
}

-- `radioLinkInit`, after the seeding of the random numbers; the channel is `param_radio_channel`.
unfoldable pub init : ℕ → Node → Node
init channel n = record {
  link = record (n.link) { rx_seq = 1; tx_seq = 0; accept_any = true; sending_reset = true };
  mac =
      radio_mac_strobe
        (radio_mac_init (record (n.mac) { pktlen = max_packet_size; channr = u8 channel }));
}

-- `radioLinkTxQueueReset`
unfoldable pub tx_queue_reset : Link → Link
tx_queue_reset l = record l { tx_int = l.tx_main }

-- `do { RFST = c; } while ((MARCSTATE & 0x1f) != wanted);` over the readings of MARCSTATE: the
-- readings left and the radio, or `none` if the radio does not get there within the readings.
unfoldable pub command_until : Command → ℕ → List ℕ → Mac Buffer → Option (List ℕ × Mac Buffer)
command_until c wanted [] m = none
command_until c wanted (r ∷ rs) m = elim (bit_and r 0x1f == wanted) [
  | true ↦ some (rs, command c m)
  | false ↦ command_until c wanted rs (command c m)
]

abbrev reset_link : Link → Link
reset_link l = record l {
  accept_any = true;
  rx_seq = 1;
  tx_seq = 0;
  rx_int = l.rx_main;
  tx_int = l.tx_main;
  tries = 0;
  sending_reset = true;
}

-- `radioLinkChangeChannel`
unfoldable pub change_channel : ℕ → List ℕ → Node → Option Node
change_channel channel readings n = elim (command_until sidle 1 readings n.mac) [
  | none ↦ none
  | some (rest, m) ↦ elim (command_until stx 0x13 rest (record m { channr = channel })) [
    | none ↦ none
    | some (_, m') ↦ some (record { link = reset_link n.link; mac = radio_mac_strobe m' })
  ]
]

-- `randomTxDelay`, with the value that `randomNumber` returns.
unfoldable pub random_tx_delay : ℕ → Link → ℕ
random_tx_delay random l = u8 ((if ltb 200 l.tries then 250 else 1) + bit_and random 3)

-- `radioLinkConnected`
unfoldable pub connected : Link → Bool
connected l = not l.sending_reset

-- `radioLinkTxAvailable` and `radioLinkTxQueued`: the differences are taken in 16-bit `int`s.
unfoldable pub tx_available : Link → ℕ
tx_available l = bit_and (u16 (l.tx_int + 2 ^ 16 - l.tx_main + 2 ^ 16 - 1)) (tx_packet_count - 1)

unfoldable pub tx_queued : Link → ℕ
tx_queued l = bit_and (u16 (l.tx_main + 2 ^ 16 - l.tx_int)) (tx_packet_count - 1)

-- `radioLinkTxCurrentPacket`: the index of the buffer whose bytes from `header_length` on the caller
-- may fill, or null.
unfoldable pub tx_current_packet : Link → Option ℕ
unfolding tx_available
tx_current_packet l = if not (truth (tx_available l)) then none else some l.tx_main

-- `radioLinkTxSendPacket`
unfoldable pub tx_send_packet : ℕ → Node → Node
tx_send_packet payload_type n =
    let l = n.link in
    let sized =
      write_byte l.tx_packet l.tx_main 0
        (u8 (byte_of l.tx_packet l.tx_main header_length + header_length)) in
    record {
      link = record l {
        tx_packet = write_byte sized l.tx_main type_offset (u8 (payload_type * 2));
        tx_main = next_index tx_packet_count l.tx_main;
      };
      mac = radio_mac_strobe n.mac;
    }

-- `radioLinkRxCurrentPacket`: the index of the buffer, whose bytes from `header_length` on are the
-- packet, or null.
unfoldable pub rx_current_packet : Link → Option ℕ
rx_current_packet l = if l.rx_main == l.rx_int then none else some l.rx_main

-- `radioLinkRxCurrentPayloadType`
unfoldable pub rx_current_payload_type : Link → ℕ
rx_current_payload_type l = byte_of l.rx_packet l.rx_main 0

-- `radioLinkRxDoneWithPacket`
unfoldable pub rx_done_with_packet : Link → Link
rx_done_with_packet l = record l { rx_main = next_index rx_packet_count l.rx_main }
