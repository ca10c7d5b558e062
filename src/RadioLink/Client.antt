-- ===== src/RadioLink/Client.antt =====
-- radio_link.c as the client of radio_mac.c: `radioMacEventHandler` decides in every event what the
-- radio does next.
use wixel_sdk.Base.{ℕ, ◌≡◌, refl, ◌⊎◌, inl, inr, false, not, ◌==◌, ltb, if_both}
use wixel_sdk.RadioMac.{
  Mac, Event, rx, tx, on_tx, on_rx, on_rx_timeout, on_strobe, radio_mac_rx, radio_mac_tx,
  radio_mac_event,
}
use wixel_sdk.RadioMac.Laws.{Decides, IsRunning, radio_mac_event_restarts}
use wixel_sdk.RadioLink.Defs.{Link, Node, Buffer, type_reset, header_length}
use wixel_sdk.RadioLink.Handler.{
  Inputs, event_handler, received, acked, after_ack, respond, take_initiative, packet_type,
  tx_data_packet, tx_reset_packet, reset_packet, crc_failed, rx_byte,
}

-- The handler with the link as the client's state.
abbrev pub link_handler : Inputs → Event → Link → Mac Buffer → Link × Mac Buffer
link_handler i e l m = let n = event_handler i e (record { link = l; mac = m }) in (n.link, n.mac)

Busy : Node → Type 0
Busy n = (n.mac.state ≡ rx) ⊎ (n.mac.state ≡ tx)

take_initiative-Busy : (n : Node) → Busy (take_initiative n)
unfolding Busy take_initiative tx_reset_packet tx_data_packet radio_mac_tx radio_mac_rx
take_initiative-Busy n =
    if_both Busy n.link.sending_reset (inr refl)
      (if_both Busy (not (n.link.tx_int == n.link.tx_main)) (inr refl) (inl refl))

respond-Busy : (k : ℕ) (n : Node) → Busy (respond k n)
unfolding Busy respond tx_data_packet radio_mac_tx
respond-Busy k n =
    inr (if_both (λ (x : Node). x.mac.state ≡ tx) (not (n.link.tx_int == n.link.tx_main)) refl refl)

received-Busy : (i : Inputs) (n : Node) → Busy (received i n)
unfolding Busy received crc_failed reset_packet after_ack radio_mac_rx radio_mac_tx
received-Busy i n =
    if_both Busy (not i.crc_passed)
      (if_both Busy (not (n.link.tx_int == n.link.tx_main)) (inl refl) (inl refl))
      (if_both Busy (packet_type n == type_reset) (inr refl) (
        if_both Busy (ltb header_length (rx_byte (acked n).link 0)) (respond-Busy _ _)
          (take_initiative-Busy (acked n))))

event_handler-Busy : (i : Inputs) (e : Event) (n : Node) → Busy (event_handler i e n)
unfolding Busy event_handler radio_mac_rx
event_handler-Busy i on_strobe n = take_initiative-Busy n
event_handler-Busy i on_tx n = inl refl
event_handler-Busy i on_rx n = received-Busy i n
event_handler-Busy i on_rx_timeout n = take_initiative-Busy n

-- In every event the link lets the radio receive or transmit.
pub link_handler-Decides : (i : Inputs) → Decides (link_handler i)
unfolding Busy
link_handler-Decides i e l m h = event_handler-Busy i e (record { link = l; mac = m })

-- With the link as its client, `radioMacEvent` leaves the radio running, whatever state it was in:
-- DMA armed, the command given that enters the state, no flag of an event set, no strobe pending.
pub radio_mac_event-link_handler :
    (i : Inputs) (e : Event) (k : ℕ) (l : Link) (m : Mac Buffer)
    → let m' = (radio_mac_event (link_handler i) e k l m).1 in
      IsRunning m' × (m'.irq_done ≡ false) × (m'.irq_timeout ≡ false) × (m'.strobe ≡ false)
radio_mac_event-link_handler i e k l m =
    let r = radio_mac_event_restarts (link_handler i) e k l m (link_handler-Decides i) in
    (r.0, r.2, r.3, r.4)
