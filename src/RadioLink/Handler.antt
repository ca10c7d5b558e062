-- ===== src/RadioLink/Handler.antt =====
-- The functions of radio_link.c that run in the radio's interrupt, `radioMacEventHandler` above all.
use wixel_sdk.Base.{
  ℕ, ◌+◌, ◌-◌, ◌/◌, ◌^◌, Bool, true, false, not, ◌||◌, if◌then◌else◌, ◌==◌, ltb, u8, byte_of,
  write_byte, next_index, bit_and, bit_or, bit_xor, set,
}
use wixel_sdk.RadioMac.{Event, on_tx, on_rx, on_rx_timeout, on_strobe, radio_mac_rx, radio_mac_tx}
use wixel_sdk.RadioLink.Defs.{
  Link, Node, tx_buffer, rx_buffer, short_buffer, length_offset, type_offset, header_length,
  payload_type_mask, packet_type_mask, type_ping, type_nak, type_ack, type_reset, rx_packet_count,
  tx_packet_count, random_tx_delay,
}

-- What the handler reads from outside: `randomNumber()` and `radioCrcPassed()`.
pub record Inputs : Type 0 where
  pub random : ℕ
  pub crc_passed : Bool

-- `if (radioLinkTxCurrentPacketTries < 255) radioLinkTxCurrentPacketTries++;`
abbrev pub count_try : Link → Link
count_try l = record l { tries = if ltb l.tries 255 then l.tries + 1 else l.tries }

-- A packet of the one header byte given, in `shortTxPacket`.
abbrev pub send_short : ℕ → Node → Node
send_short header n = record {
  link = record (n.link) {
    short_packet = set (set n.link.short_packet length_offset 1) type_offset header;
  };
  mac = radio_mac_tx short_buffer n.mac;
}

-- `txResetPacket`
unfoldable pub tx_reset_packet : Node → Node
tx_reset_packet n = let n' = send_short type_reset n in record n' { link = count_try n'.link }

abbrev pub data_header : Link → ℕ → ℕ
data_header l packet_type =
    bit_or
      (bit_or (bit_and (byte_of l.tx_packet l.tx_int type_offset) payload_type_mask) packet_type)
      l.tx_seq

-- `txDataPacket`
unfoldable pub tx_data_packet : ℕ → Node → Node
tx_data_packet packet_type n =
    let l = n.link in
    record {
      link = count_try (record l {
        tx_packet = write_byte l.tx_packet l.tx_int type_offset (data_header l packet_type);
      });
      mac = radio_mac_tx (tx_buffer l.tx_int) n.mac;
    }

abbrev pub set_activity : Node → Node
set_activity n = record n { link = record (n.link) { activity = true } }

-- `radioMacRx(radioLinkRxPacket[radioLinkRxInterruptIndex], timeout)`
abbrev pub listen : ℕ → Node → Node
listen timeout n = record n { mac = radio_mac_rx (rx_buffer n.link.rx_int) timeout n.mac }

-- `takeInitiative`
unfoldable pub take_initiative : Node → Node
take_initiative n =
    if n.link.sending_reset
    then set_activity (tx_reset_packet n)
    else (if not (n.link.tx_int == n.link.tx_main)
        then set_activity (tx_data_packet type_ping n)
        else listen 0 n)

-- The answer to a packet whose CRC is wrong: listen again, for a while only if there is data to send.
unfoldable pub crc_failed : Inputs → Node → Node
crc_failed i n =
    if not (n.link.tx_int == n.link.tx_main)
    then listen (random_tx_delay i.random n.link) n
    else listen 0 n

-- A Reset packet: expect a sequence bit of 0 next, tell the main loop, acknowledge.
unfoldable pub reset_packet : Node → Node
reset_packet n = set_activity (
    send_short type_ack (record n { link = record (n.link) { rx_seq = 1; reset_received = true } }))

-- An acknowledgement: of the Reset packet, or of the data packet being sent.
unfoldable pub ack_packet : Link → Link
ack_packet l =
    if l.sending_reset
    then record l { sending_reset = false; tries = 0; tx_seq = 0 }
    else (if not (l.tx_int == l.tx_main)
        then record l {
          tx_int = next_index tx_packet_count l.tx_int;
          tries = 0;
          tx_seq = bit_xor l.tx_seq 1;
        }
        else l)

abbrev pub next_rx : Link → ℕ
next_rx l = next_index rx_packet_count l.rx_int

abbrev pub rx_byte : Link → ℕ → ℕ
rx_byte l i = byte_of l.rx_packet l.rx_int i

-- The two bytes that the main loop will read are put over the packet's length and header.
abbrev pub hand_over : Link → Link
hand_over l =
    let payload_type = bit_and (rx_byte l type_offset) payload_type_mask / 2 in
    let sized =
      write_byte l.rx_packet l.rx_int header_length
        (u8 (rx_byte l length_offset + 2 ^ 8 - header_length)) in
    record l {
      rx_seq = bit_and (rx_byte l type_offset) 1;
      accept_any = false;
      rx_packet = write_byte sized l.rx_int 0 payload_type;
      rx_int = next_rx l;
    }

abbrev pub is_new : Link → Bool
is_new l = l.accept_any || not (l.rx_seq == bit_and (rx_byte l type_offset) 1)

-- A packet with data: the link after it, and the type of the response.
unfoldable pub accept_data : Link → ℕ × Link
accept_data l =
    if is_new l
    then (if not (next_rx l == l.rx_main) then (type_ack, hand_over l) else (type_nak, l))
    else (type_ack, l)

-- The response to a packet with data, together with data of our own if there is any.
unfoldable pub respond : ℕ → Node → Node
respond packet_type n = set_activity (
    if not (n.link.tx_int == n.link.tx_main)
    then tx_data_packet packet_type n
    else send_short packet_type n)

-- What follows the acknowledgement: accept and answer data, or take the initiative.
unfoldable pub after_ack : Node → Node
unfolding accept_data respond take_initiative
after_ack n =
    if ltb header_length (rx_byte n.link length_offset)
    then (let (response, l) = accept_data n.link in respond response (record n { link = l }))
    else take_initiative n

abbrev pub packet_type : Node → ℕ
packet_type n = bit_and (rx_byte n.link type_offset) packet_type_mask

-- The node once an acknowledgement in the packet has been taken in.
abbrev pub acked : Node → Node
acked n = if packet_type n == type_ack then record n { link = ack_packet n.link } else n

-- A packet has been received into `radioLinkRxPacket[radioLinkRxInterruptIndex]`.
unfoldable pub received : Inputs → Node → Node
unfolding crc_failed reset_packet ack_packet after_ack
received i n =
    if not i.crc_passed
    then crc_failed i n
    else (if packet_type n == type_reset then reset_packet n else after_ack (acked n))

-- `radioMacEventHandler`
unfoldable pub event_handler : Inputs → Event → Node → Node
unfolding received take_initiative
event_handler i on_strobe n = take_initiative n
event_handler i on_tx n = listen (random_tx_delay i.random n.link) n
event_handler i on_rx n = received i n
event_handler i on_rx_timeout n = take_initiative n
