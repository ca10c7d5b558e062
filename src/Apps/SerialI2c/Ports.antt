-- ===== src/Apps/SerialI2c/Ports.antt =====
-- The sending side of the library's serial interfaces, as the bridge to I2C uses it.
use wixel_sdk.Base.{
  ℕ, zero, suc, Bool, true, false, ◌*◌, ◌⊎◌, ltb, ◌==◌, if◌then◌else◌, if_both, ◌+◌, ◌-◌, ◌≤◌, ◌<◌,
  ◌≡◌, refl, ap, [], ◌∷◌, arith, length, length-append,
}
use wixel_sdk.Uart
use wixel_sdk.Uart.Laws
use wixel_sdk.Uart.Laws.{tx_contents, available_counts, tx_send_byte_lem, tx_send_byte-IsValid}
use wixel_sdk.UsbCom.Port.{
  Com, in_packet_size, is_configured, load, send_packet_now, tx_available, tx_send_byte,
}
use wixel_sdk.UsbCom.Stream
use wixel_sdk.UsbCom.Stream.{stream}
use wixel_sdk.UsbCom.Runs.{tx_send_byte-Loads}
use wixel_sdk.Apps.{uart_serial, usb_serial}
use wixel_sdk.Apps.UsbSerial.Ports.{
  IsValid, free, tx_available-count, tx_available-again, usb_accepts, usb_put,
}
use wixel_sdk.Apps.SerialI2c.Reading.{Sends}

pub uart_room :
    (port : Uart.Port) (byte : ℕ) (u : Uart.Uart)
    → Laws.IsValid u
    → 0 < Uart.tx_available u
    → Uart.tx_available u ≤ Uart.tx_available (Uart.tx_send_byte port byte u) + 1
uart_room port byte u v room = omega (
  arith,
  (available_counts u v).0,
  (available_counts (Uart.tx_send_byte port byte u) (tx_send_byte-IsValid port byte u v)).0,
  ap length (tx_send_byte_lem port byte u v room),
  length-append (tx_contents u) (byte ∷ []),
)

-- The serial port takes what fits in its buffer.
abbrev pub uart_sends : (port : Uart.Port) → Sends (uart_serial port)
uart_sends port = record {
  IsValid = Laws.IsValid;
  sent = tx_contents;
  asks = λ u v. (v, refl, refl);
  sends = λ byte u v room. (
    tx_send_byte-IsValid port byte u v,
    tx_send_byte_lem port byte u v room,
    uart_room port byte u v room,
  );
}

free_places :
    (flying loaded : ℕ)
    → flying ≤ 2
    → (flying ≤ 1) ⊎ (loaded ≡ 0)
    → (if ltb 0 flying
        then (if ltb 1 flying then 0 else in_packet_size - loaded)
        else 2 * in_packet_size - loaded)
      ≡ (2 - flying) * in_packet_size - loaded
free_places zero loaded most full = refl
free_places (suc zero) loaded most full = refl
free_places (suc (suc n)) loaded most full = ground (arith, most)

free-room : (c : Com) → Stream.IsValid c → free c ≡ Stream.room c
free-room c v = free_places c.in_flight c.loaded v.double v.full

is_configured-tx_send_byte :
    (byte : ℕ) (c : Com) → is_configured (tx_send_byte byte c) ≡ is_configured c
unfolding tx_send_byte send_packet_now
is_configured-tx_send_byte byte c =
    let d = load (byte ∷ []) c in
    if_both {A = Com} {x = send_packet_now d} {y = d} (λ e. is_configured e ≡ is_configured c)
      (d.loaded == in_packet_size) refl refl

-- A byte that is sent takes up one place.
pub usb_room :
    (byte : ℕ) (c : Com)
    → Stream.IsValid c
    → 0 < (tx_available c).0
    → (tx_available c).0 ≤ (tx_available (tx_send_byte byte c)).0 + 1
usb_room byte c v room =
    let d = tx_send_byte byte c in
    let h = tx_send_byte-Loads byte c v room in
    rw (tx_available-count c) (
      rw (tx_available-count d) (
        rw (is_configured-tx_send_byte byte c) (
          places _ _ (is_configured c)
            (omega (arith, h.left, free-room c v, free-room d h.valid)))))
  where
    places : (m n : ℕ) (b : Bool) → m ≤ n + 1 → (if b then m else 0) ≤ (if b then n else 0) + 1
    places m n true le = le
    places m n false le = omega arith

-- The port to the host takes what fits in both buffers of its FIFO.
abbrev pub usb_sends : Sends usb_serial
usb_sends = record {
  IsValid = IsValid;
  sent = stream;
  asks = λ c v. let h = usb_accepts c v in (h.0, h.2, tx_available-again c);
  sends = λ byte c v room. let h = usb_put byte c v room in (h.1, h.0, usb_room byte c v.port room);
}
