-- ===== src/Apps/UsbSerial/Ports.antt =====
-- The serial port and the port to the host as two lists of bytes each.
use wixel_sdk.Base.{
  ℕ, zero, suc, ◌-◌, ◌*◌, ◌<◌, ◌≤◌, ◌≡◌, refl, sym, ap, subst, ◌∙◌, ◌⊎◌, inl, inr, Bool, true,
  false, List, [], ◌∷◌, ◌++◌, arith, length, All, if◌then◌else◌, if_cases, if_both, ltb, u8, ◌==◌,
}
use wixel_sdk.Uart
use wixel_sdk.Uart.Laws.{
  rx_contents, tx_contents, available_counts, tx_send_byte_lem, tx_send_byte-IsValid,
  rx_receive_byte_lem,
}
use wixel_sdk.UsbCom.Port.{
  Com, rx_available, rx_receive_byte, out_count, tx_available, tx_send_byte, send_packet_now, load,
  select, is_configured, in_packet_size,
}
use wixel_sdk.UsbCom.Stream
use wixel_sdk.UsbCom.Stream.{stream, joined}
use wixel_sdk.UsbCom.Runs.{tx_send_byte-Loads}
use wixel_sdk.Apps.{uart_serial, usb_serial}
use wixel_sdk.Apps.Forward.{Streams}
use wixel_sdk.Uart.Laws

pub uart_takes :
    (u : Uart.Uart)
    → Laws.IsValid u
    → (Uart.rx_available u ≡ 0)
      ⊎ (let (byte, u') = Uart.rx_receive_byte u in
          (rx_contents u ≡ byte ∷ rx_contents u')
          × Laws.IsValid u'
          × (tx_contents u' ≡ tx_contents u))
unfolding Uart.rx_receive_byte
uart_takes u v = take (Uart.rx_available u) refl
  where
    take :
        (n : ℕ)
        → Uart.rx_available u ≡ n
        → (Uart.rx_available u ≡ 0)
          ⊎ (let (byte, u') = Uart.rx_receive_byte u in
              (rx_contents u ≡ byte ∷ rx_contents u')
              × Laws.IsValid u'
              × (tx_contents u' ≡ tx_contents u))
    take zero e = inl e
    take (suc n) e = let h = rx_receive_byte_lem u v (omega (arith, e)) in inr (h.0, h.1, refl)

pub uart_puts :
    (port : Uart.Port) (u : Uart.Uart)
    → Laws.IsValid u
    → (Uart.tx_available u ≡ 0)
      ⊎ ((byte : ℕ)
          → let u' = Uart.tx_send_byte port byte u in
            (tx_contents u' ≡ tx_contents u ++ byte ∷ [])
            × Laws.IsValid u'
            × (rx_contents u' ≡ rx_contents u))
unfolding Uart.tx_send_byte
uart_puts port u v = put (Uart.tx_available u) refl
  where
    put :
        (n : ℕ)
        → Uart.tx_available u ≡ n
        → (Uart.tx_available u ≡ 0)
          ⊎ ((byte : ℕ)
              → let u' = Uart.tx_send_byte port byte u in
                (tx_contents u' ≡ tx_contents u ++ byte ∷ [])
                × Laws.IsValid u'
                × (rx_contents u' ≡ rx_contents u))
    put zero e = inl e
    put (suc n) e = inr (λ byte. (
      tx_send_byte_lem port byte u v (omega (arith, e)),
      tx_send_byte-IsValid port byte u v,
      refl,
    ))

pub uart_still_offered :
    (port : Uart.Port) (byte : ℕ) (u : Uart.Uart)
    → Uart.rx_available (Uart.tx_send_byte port byte u) ≡ Uart.rx_available u
unfolding Uart.tx_send_byte Uart.rx_available
uart_still_offered port byte u = refl

-- The serial port: what the receive interrupt has queued, and what waits for the transmit interrupt.
abbrev pub uart_streams : (port : Uart.Port) → Streams (uart_serial port)
uart_streams port = record {
  IsValid = Laws.IsValid;
  waiting = rx_contents;
  sent = tx_contents;
  offered = Uart.rx_available;
  room = Uart.tx_available;
  offers_count = λ u. refl;
  room_count = λ u. refl;
  still_offered = λ byte u. (refl, uart_still_offered port byte u);
  offers = λ u v. (v, refl, refl, uart_takes u v);
  accepts = λ u v. (v, refl, refl, uart_puts port u v);
}

-- Packets of the host
pub record IsValid (c : Com) : Type 0 where
  pub port : Stream.IsValid c
  pub packets : All (λ p. length p ≤ in_packet_size) c.out_packets

-- The port does not depend on which endpoint is selected, on the host's packets, or on the activity noted.
reselect :
    (c : Com) (endpoint : ℕ) (noted : Bool) (packets : List (List ℕ))
    → Stream.IsValid c
    → Stream.IsValid (record c {
      usb = record (c.usb) { usbindex = endpoint; activity = noted };
      out_packets = packets;
    })
reselect c endpoint noted packets v = record {
  counted = v.counted;
  short = v.short;
  double = v.double;
  full = v.full;
  sizes = v.sizes;
  soon = v.soon;
}

selected-IsValid : (c : Com) → IsValid c → IsValid (select 4 c)
selected-IsValid c v = record {
  port = reselect c 4 c.usb.activity c.out_packets v.port;
  packets = v.packets;
}

abbrev Taken : Com → Type 0
Taken c =
    let (byte, d) = rx_receive_byte (select 4 c) in
    (joined c.out_packets ≡ byte ∷ joined d.out_packets) × IsValid d × (stream d ≡ stream c)

abbrev with_packets : List (List ℕ) → Com → Com
with_packets packets c = record c { out_packets = packets }

read_on :
    (c : Com) (packets : List (List ℕ))
    → Stream.IsValid c
    → All (λ p. length p ≤ in_packet_size) packets
    → IsValid
        (record c { usb = record (c.usb) { usbindex = 4; activity = true }; out_packets = packets })
read_on c packets v h = record { port = reselect c 4 true packets v; packets = h }

packets-Taken :
    (c : Com) (packets : List (List ℕ))
    → Stream.IsValid c
    → All (λ p. length p ≤ in_packet_size) packets
    → (u8 (out_count packets) ≡ 0) ⊎ Taken (with_packets packets c)
unfolding rx_receive_byte
packets-Taken c [] v h = inl refl
packets-Taken c ([] ∷ ps) v h = inl refl
packets-Taken c ((b ∷ []) ∷ ps) v h = inr (refl, read_on c ps v h.1, refl)
packets-Taken c ((b ∷ b' ∷ bs) ∷ ps) v h =
    inr (refl, read_on c ((b' ∷ bs) ∷ ps) v (omega (arith, h.0), h.1), refl)

usb_takes : (c : Com) → IsValid c → (u8 (out_count c.out_packets) ≡ 0) ⊎ Taken c
usb_takes c v = packets-Taken c c.out_packets v.port v.packets

pub usb_offers :
    (c : Com)
    → IsValid c
    → let (n, d) = rx_available c in
      IsValid d
      × (joined d.out_packets ≡ joined c.out_packets)
      × (stream d ≡ stream c)
      × ((n ≡ 0)
          ⊎ (let (byte, e) = rx_receive_byte d in
              (joined c.out_packets ≡ byte ∷ joined e.out_packets)
              × IsValid e
              × (stream e ≡ stream c)))
unfolding rx_available
usb_offers c v =
    if_both {A = ℕ × Com} {x = (u8 (out_count c.out_packets), select 4 c)} {y = (0, c)}
      (λ r.
        IsValid r.1
        × (joined r.1.out_packets ≡ joined c.out_packets)
        × (stream r.1 ≡ stream c)
        × ((r.0 ≡ 0)
            ⊎ (let (byte, e) = rx_receive_byte r.1 in
                (joined c.out_packets ≡ byte ∷ joined e.out_packets)
                × IsValid e
                × (stream e ≡ stream c))))
      (is_configured c) (selected-IsValid c v, refl, refl, usb_takes c v) (v, refl, refl, inl refl)

-- A byte that is sent leaves the host's packets alone.
out_packets-tx_send_byte : (byte : ℕ) (c : Com) → (tx_send_byte byte c).out_packets ≡ c.out_packets
unfolding tx_send_byte send_packet_now
out_packets-tx_send_byte byte c =
    let d = load (byte ∷ []) c in
    if_both {A = Com} {x = send_packet_now d} {y = d} (λ e. e.out_packets ≡ c.out_packets)
      (d.loaded == in_packet_size) refl refl

pub usb_put :
    (byte : ℕ) (c : Com)
    → IsValid c
    → 0 < (tx_available c).0
    → (stream (tx_send_byte byte c) ≡ stream c ++ byte ∷ [])
      × IsValid (tx_send_byte byte c)
      × (joined (tx_send_byte byte c).out_packets ≡ joined c.out_packets)
usb_put byte c v room =
    let h = tx_send_byte-Loads byte c v.port room in
    let same = out_packets-tx_send_byte byte c in
    (
      h.appended,
      record {
        port = h.valid;
        packets = subst (All (λ p. length p ≤ in_packet_size)) (sym same) v.packets;
      },
      ap joined same,
    )

-- The bytes that still fit, for a configured device
abbrev pub free : Com → ℕ
free c =
    if ltb 0 c.in_flight
    then (if ltb 1 c.in_flight then 0 else in_packet_size - c.loaded)
    else 2 * in_packet_size - c.loaded

pub tx_available-count : (c : Com) → (tx_available c).0 ≡ (if is_configured c then free c else 0)
unfolding tx_available
tx_available-count c = counted (is_configured c)
  where
    counted :
        (b : Bool)
        → (let r : ℕ × Com = if b then (free c, select 4 c) else (0, c) in r.0)
          ≡ (if b then free c else 0)
    counted true = refl
    counted false = refl

-- Asking again gives the same answer.
pub tx_available-again : (c : Com) → (tx_available (tx_available c).1).0 ≡ (tx_available c).0
unfolding tx_available
tx_available-again c =
    tx_available-count (tx_available c).1
    ∙ if_both {A = ℕ × Com} {x = (free c, select 4 c)} {y = (0, c)}
        (λ r. (if is_configured r.1 then free r.1 else 0) ≡ (if is_configured c then free c else 0))
        (is_configured c) refl refl
    ∙ sym (tx_available-count c)

-- The count that usbComRxAvailable reports depends on the packets and the state of the device only.
abbrev pub offered_by : Bool → List (List ℕ) → ℕ
offered_by true packets = u8 (out_count packets)
offered_by false packets = 0

pub rx_available-count : (c : Com) → (rx_available c).0 ≡ offered_by (is_configured c) c.out_packets
unfolding rx_available
rx_available-count c = counted (is_configured c)
  where
    counted :
        (b : Bool)
        → (let r : ℕ × Com = if b then (u8 (out_count c.out_packets), select 4 c) else (0, c) in
            r.0)
          ≡ offered_by b c.out_packets
    counted true = refl
    counted false = refl

pub rx_available-again : (c : Com) → (rx_available (rx_available c).1).0 ≡ (rx_available c).0
unfolding rx_available
rx_available-again c =
    rx_available-count (rx_available c).1
    ∙ if_both {A = ℕ × Com} {x = (u8 (out_count c.out_packets), select 4 c)} {y = (0, c)}
        (λ r.
          offered_by (is_configured r.1) r.1.out_packets
          ≡ offered_by (is_configured c) c.out_packets)
        (is_configured c) refl refl
    ∙ sym (rx_available-count c)

pub offered-tx_available : (c : Com) → (rx_available (tx_available c).1).0 ≡ (rx_available c).0
unfolding tx_available
offered-tx_available c =
    rx_available-count (tx_available c).1
    ∙ if_both {A = ℕ × Com} {x = (free c, select 4 c)} {y = (0, c)}
        (λ r.
          offered_by (is_configured r.1) r.1.out_packets
          ≡ offered_by (is_configured c) c.out_packets)
        (is_configured c) refl refl
    ∙ sym (rx_available-count c)

rx_available-tx_send_byte :
    (byte : ℕ) (c : Com) → (rx_available (tx_send_byte byte c)).0 ≡ (rx_available c).0
unfolding tx_send_byte send_packet_now
rx_available-tx_send_byte byte c =
    let d = load (byte ∷ []) c in
    rx_available-count (tx_send_byte byte c)
    ∙ if_both {A = Com} {x = send_packet_now d} {y = d}
        (λ e.
          offered_by (is_configured e) e.out_packets ≡ offered_by (is_configured c) c.out_packets)
        (d.loaded == in_packet_size) refl refl
    ∙ sym (rx_available-count c)

pub offered-tx_send_byte :
    (byte : ℕ) (c : Com)
    → (rx_available (tx_send_byte byte (tx_available c).1)).0 ≡ (rx_available c).0
offered-tx_send_byte byte c =
    rx_available-tx_send_byte byte (tx_available c).1 ∙ offered-tx_available c

abbrev Accepts : Com → ℕ × Com → Type 0
Accepts c (n, d) =
    IsValid d
    × (joined d.out_packets ≡ joined c.out_packets)
    × (stream d ≡ stream c)
    × ((n ≡ 0)
        ⊎ ((byte : ℕ)
            → let e = tx_send_byte byte d in
              (stream e ≡ stream c ++ byte ∷ [])
              × IsValid e
              × (joined e.out_packets ≡ joined c.out_packets)))

pub usb_accepts :
    (c : Com)
    → IsValid c
    → let (n, d) = tx_available c in
      IsValid d
      × (joined d.out_packets ≡ joined c.out_packets)
      × (stream d ≡ stream c)
      × ((n ≡ 0)
          ⊎ ((byte : ℕ)
              → let e = tx_send_byte byte d in
                (stream e ≡ stream c ++ byte ∷ [])
                × IsValid e
                × (joined e.out_packets ≡ joined c.out_packets)))
unfolding tx_available
usb_accepts c v =
    if_cases {A = ℕ × Com} (Accepts c) (is_configured c) (free c, select 4 c) (0, c)
      (λ e. (selected-IsValid c v, refl, refl, puts e (free c) refl))
      (λ e. (v, refl, refl, inl refl))
  where
    room : {n : ℕ} → is_configured c ≡ true → free c ≡ suc n → 0 < (tx_available (select 4 c)).0
    room e m =
        subst
          (λ b. let r : ℕ × Com = if b then (free c, select 4 c) else (0, select 4 c) in 0 < r.0)
          (sym e) (omega (arith, m))

    puts :
        is_configured c ≡ true
        → (n : ℕ) → free c ≡ n
        → (free c ≡ 0)
          ⊎ ((byte : ℕ)
              → let e = tx_send_byte byte (select 4 c) in
                (stream e ≡ stream c ++ byte ∷ [])
                × IsValid e
                × (joined e.out_packets ≡ joined c.out_packets))
    puts e zero m = inl m
    puts e (suc n) m = inr (λ byte. usb_put byte (select 4 c) (selected-IsValid c v) (room e m))

abbrev pub usb_streams : Streams usb_serial
usb_streams = record {
  IsValid = IsValid;
  waiting = λ c. joined c.out_packets;
  sent = stream;
  offered = λ c. (rx_available c).0;
  room = λ c. (tx_available c).0;
  offers_count = rx_available-again;
  room_count = tx_available-again;
  still_offered = λ byte c. (offered-tx_available c, offered-tx_send_byte byte c);
  offers = usb_offers;
  accepts = usb_accepts;
}
