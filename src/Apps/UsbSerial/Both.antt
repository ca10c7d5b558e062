-- ===== src/Apps/UsbSerial/Both.antt =====
-- One call of `usbToUartService`: bytes go both ways.
use wixel_sdk.Base.{
  ℕ, suc, ◌≡◌, refl, sym, ap, ◌∙◌, ◌⊎◌, inl, inr, Bool, List, [], ◌∷◌, ◌++◌, Option, none, some,
  arith, length,
}
use wixel_sdk.Uart
use wixel_sdk.Uart.Laws
use wixel_sdk.Uart.Laws.{rx_contents, tx_contents, available_counts}
use wixel_sdk.UsbCom.Callbacks.{Layout}
use wixel_sdk.UsbCom.Port.{Com, rx_available, tx_available, tx_control_signals}
use wixel_sdk.UsbCom.Stream.{stream, joined}
use wixel_sdk.Apps.{uart_serial, usb_serial}
use wixel_sdk.Apps.Forward.{Returns, Moved, Stops, forward_lem}
use wixel_sdk.Apps.UsbSerial.{
  Bridge, Lines, to_uart, to_usb, then_usb, with_lines, signals_of, swapped, service,
}
use wixel_sdk.Apps.UsbSerial.Ports
use wixel_sdk.Apps.UsbSerial.Ports.{
  uart_streams, usb_streams, tx_available-count, rx_available-count,
}

-- What one call has done: `down` has gone from the host's packets to the bytes for the serial port, `up`
-- from the bytes of the serial port to the host; and why either way has ended.
pub record Bridged (r0 : Bridge) (r : Bridge × Lines) : Type 0 where
  pub down : List ℕ
  pub up : List ℕ
  pub from_host : joined r0.1.out_packets ≡ down ++ joined r.0.1.out_packets
  pub to_wire : tx_contents r.0.0 ≡ tx_contents r0.0 ++ down
  pub from_wire : rx_contents r0.0 ≡ up ++ rx_contents r.0.0
  pub to_host : stream r.0.1 ≡ stream r0.1 ++ up
  pub uart_valid : Laws.IsValid r.0.0
  pub usb_valid : Ports.IsValid r.0.1
  pub down_ends : ((rx_available r.0.1).0 ≡ 0) ⊎ (Uart.tx_available r.0.0 ≡ 0)
  pub up_ends : (rx_contents r.0.0 ≡ []) ⊎ ((tx_available r.0.1).0 ≡ 0)

-- What comes of a first half
record Down (r0 r : Bridge) : Type 0 where
  down : List ℕ
  from_host : joined r0.1.out_packets ≡ down ++ joined r.1.out_packets
  to_wire : tx_contents r.0 ≡ tx_contents r0.0 ++ down
  waits : rx_contents r.0 ≡ rx_contents r0.0
  kept : stream r.1 ≡ stream r0.1
  uart_valid : Laws.IsValid r.0
  usb_valid : Ports.IsValid r.1
  ends : ((rx_available r.1).0 ≡ 0) ⊎ (Uart.tx_available r.0 ≡ 0)

uart_ends :
    (u : Uart.Uart) (c : Com)
    → Laws.IsValid u
    → Stops (uart_serial Uart.usart1) usb_serial (uart_streams Uart.usart1) usb_streams (u, c)
    → (rx_contents u ≡ []) ⊎ ((tx_available c).0 ≡ 0)
uart_ends u c v (inl nothing) = inl (empty (rx_contents u) (sym (available_counts u v).1 ∙ nothing))
  where
    empty : (xs : List ℕ) → length xs ≡ 0 → xs ≡ []
    empty [] h = refl
    empty (x ∷ xs) h = absurd (omega (arith, h))
uart_ends u c v (inr full) = inr full

swapped-Down :
    (u : Uart.Uart) (c : Com) (o : Option (Com × Uart.Uart))
    → Returns
        (Moved usb_serial (uart_serial Uart.usart1) usb_streams (uart_streams Uart.usart1) c u)
        o
    → Returns (Down (u, c)) (swapped o)
swapped-Down u c none h = h
swapped-Down u c (some (c', u')) h = record {
  down = h.moved;
  from_host = h.taken;
  to_wire = h.given;
  waits = h.kept;
  kept = h.back;
  uart_valid = h.to_valid;
  usb_valid = h.from_valid;
  ends = h.stops;
}

to_uart-Down :
    (u : Uart.Uart) (c : Com)
    → Laws.IsValid u
    → Ports.IsValid c
    → Returns (Down (u, c)) (to_uart (u, c))
unfolding to_uart
to_uart-Down u c vu vc = swapped-Down u c _ (
    forward_lem usb_serial (uart_serial Uart.usart1) usb_streams (uart_streams Uart.usart1)
      (suc (length (joined c.out_packets))) c u vc vu (omega arith))

-- Reporting the control signals changes no more than the serial state.
framed : (c : Com) (signals : ℕ) → Ports.IsValid c → Ports.IsValid (tx_control_signals signals c)
unfolding tx_control_signals
framed c signals v = record {
  port = record {
    counted = v.port.counted;
    short = v.port.short;
    double = v.port.double;
    full = v.port.full;
    sizes = v.port.sizes;
    soon = v.port.soon;
  };
  packets = v.packets;
}

room-tx_control_signals :
    (c : Com) (signals : ℕ) → (tx_available (tx_control_signals signals c)).0 ≡ (tx_available c).0
unfolding tx_control_signals
room-tx_control_signals c signals =
    tx_available-count (tx_control_signals signals c) ∙ sym (tx_available-count c)

offered-tx_control_signals :
    (c : Com) (signals : ℕ) → (rx_available (tx_control_signals signals c)).0 ≡ (rx_available c).0
unfolding tx_control_signals
offered-tx_control_signals c signals =
    rx_available-count (tx_control_signals signals c) ∙ sym (rx_available-count c)

same_room :
    (u u' : Uart.Uart)
    → Laws.IsValid u
    → Laws.IsValid u'
    → tx_contents u' ≡ tx_contents u
    → Uart.tx_available u ≡ 0
    → Uart.tx_available u' ≡ 0
same_room u u' v v' e none_left =
    omega (arith, (available_counts u v).0, (available_counts u' v').0, ap length e, none_left)

with_lines-Bridged :
    (l : Layout) (p1_2 p1_3 : Bool) (r0 r : Bridge) (p : Lines) (o : Option Bridge)
    → Down r0 r
    → Returns
        (Moved (uart_serial Uart.usart1) usb_serial (uart_streams Uart.usart1) usb_streams r.0 r.1)
        o
    → Returns (Bridged r0) (with_lines l p1_2 p1_3 p o)
unfolding tx_control_signals
with_lines-Bridged l p1_2 p1_3 r0 r p none d h = h
with_lines-Bridged l p1_2 p1_3 r0 r p (some (u, c)) d h = record {
  down = d.down;
  up = h.moved;
  from_host = d.from_host ∙ ap (λ t. d.down ++ t) (sym h.kept);
  to_wire = h.back ∙ d.to_wire;
  from_wire = sym d.waits ∙ h.taken;
  to_host = h.given ∙ ap (λ t. t ++ h.moved) d.kept;
  uart_valid = h.from_valid;
  usb_valid = framed c (signals_of p1_2 p1_3) h.to_valid;
  down_ends = elim d.ends [
    | inl e ↦ inl (offered-tx_control_signals c (signals_of p1_2 p1_3) ∙ h.still ∙ e)
    | inr e ↦ inr (same_room r.0 u d.uart_valid h.from_valid h.back e)
  ];
  up_ends = elim (uart_ends u c h.from_valid h.stops) [
    | inl e ↦ inl e
    | inr e ↦ inr (room-tx_control_signals c (signals_of p1_2 p1_3) ∙ e)
  ];
}

half-Bridged :
    (l : Layout) (p1_2 p1_3 : Bool) (r0 : Bridge) (p : Lines) (o : Option Bridge)
    → Returns (Down r0) o
    → Returns (Bridged r0) (with_lines l p1_2 p1_3 p (then_usb o))
unfolding to_usb
half-Bridged l p1_2 p1_3 r0 p none h = h
half-Bridged l p1_2 p1_3 r0 p (some r) h = with_lines-Bridged l p1_2 p1_3 r0 r p _ h (
    forward_lem (uart_serial Uart.usart1) usb_serial (uart_streams Uart.usart1) usb_streams
      Uart.buffer_size r.0 r.1 h.uart_valid h.usb_valid
      (omega (arith, (available_counts r.0 h.uart_valid).2)))

-- From valid ports, usbToUartService returns, with both loops ended. Bytes have gone, in order, from the front
-- of the host's packets to the end of what the serial port has to send, and from the front of what it has
-- received to the end of the stream to the host; none is lost, added or moved. Downwards it has ended
-- with usbComRxAvailable reporting no byte or the serial port no room; upwards with all bytes gone or
-- usbComTxAvailable reporting no room. Both ports are valid again.
pub service-Bridged :
    (l : Layout) (p1_2 p1_3 : Bool) (u : Uart.Uart) (c : Com) (p : Lines)
    → Laws.IsValid u
    → Ports.IsValid c
    → Returns (Bridged (u, c)) (service l p1_2 p1_3 (u, c) p)
unfolding service
service-Bridged l p1_2 p1_3 u c p vu vc =
    half-Bridged l p1_2 p1_3 (u, c) p (to_uart (u, c)) (to_uart-Down u c vu vc)
