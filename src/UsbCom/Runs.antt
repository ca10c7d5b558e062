-- ===== src/UsbCom/Runs.antt =====
-- Any order of sends, services and packets collected by the host.
use wixel_sdk.Base.{
  ◌⊎◌, ℕ, ◌-◌, ◌≤◌, ◌<◌, ◌≡◌, refl, sym, ap, ◌∙◌, Bool, true, false, not, ◌&&◌, ◌||◌, List, [], ◌∷◌,
  ◌++◌, append_assoc, append-nil, arith, length, if◌then◌else◌, if_cases, if_both, ltb, ◌==◌, truth,
  get_or,
}
use wixel_sdk.UsbCom.Callbacks.{Layout, app}
use wixel_sdk.Usb.Defs.{Usb, configured}
use wixel_sdk.Usb.Poll.{Registers, poll}
use wixel_sdk.UsbCom.Port.{
  Com, in_packet_size, select, report, send_packet_now, tx_available, tx_send_byte, tx_send,
  service_data, service_notification, service, is_configured, elapsed,
}
use wixel_sdk.UsbCom.Stream.{
  stream, joined, joined-snoc, ends_full, IsValid, Loads, load-Loads, tx_send_rounds-Loads,
  tx_available-le-room, send_packet_now-IsValid, stream-send_packet_now, ends_full-snoc,
}

tx_send-Loads :
    (bytes : List ℕ) (c : Com)
    → IsValid c
    → length bytes ≤ (tx_available c).0
    → Loads bytes c (tx_send bytes c)
unfolding tx_send
tx_send-Loads bytes c v fits =
    tx_send_rounds-Loads (length bytes) bytes c v (omega (arith, fits, tx_available-le-room c v))
      (omega arith)

pub tx_send_byte-Loads :
    (byte : ℕ) (c : Com)
    → IsValid c
    → 0 < (tx_available c).0
    → Loads (byte ∷ []) c (tx_send_byte byte c)
unfolding tx_send_byte
tx_send_byte-Loads byte c v fits =
    let r = tx_available-le-room c v in
    load-Loads (byte ∷ []) c v (ground (arith, r, fits, v.double)) (omega (arith, v.short))

-- The same bytes, in a valid port
pub record Keeps (c d : Com) : Type 0 where
  pub valid : IsValid d
  pub same : stream d ≡ stream c

Keeps-trans : {c d e : Com} → Keeps c d → Keeps d e → Keeps c e
Keeps-trans f g = record { valid = g.valid; same = g.same ∙ f.same }

-- What is not about the data endpoint does not matter.
framed :
    (u : Usb) (state : ℕ) (ns : List (List ℕ)) (b : Bool) (c : Com)
    → IsValid c
    → Keeps c (record c { usb = u; serial_state = state; notifications = ns; in_bootloader = b })
framed u state ns b c v = record {
  valid = record {
    counted = v.counted;
    short = v.short;
    double = v.double;
    full = v.full;
    sizes = v.sizes;
    soon = v.soon;
  };
  same = refl;
}

-- A service sends what is loaded, and an empty packet after a full one once the FIFO is empty.
service_data-Keeps : (c : Com) → IsValid c → Keeps c (service_data c)
unfolding service_data
service_data-Keeps c v =
    let d = select 4 c in
    let k = framed d.usb c.serial_state c.notifications c.in_bootloader c v in
    if_cases {A = Com} (Keeps c) (truth c.loaded || c.send_empty_soon && not (ltb 0 c.in_flight))
      (send_packet_now d) d
      (λ e. record {
        valid = send_packet_now-IsValid d (record {
          counted = v.counted;
          fits = omega (arith, v.short);
          room = ground (arith, e, v.full);
          sizes = v.sizes;
          soon = v.soon;
        });
        same = stream-send_packet_now d;
      })
      (λ e. k)

report-Keeps : (l : Layout) (c : Com) → IsValid c → Keeps c (report l c)
unfolding report
report-Keeps l c v = framed _ _ _ c.in_bootloader c v

service_notification-Keeps :
    (l : Layout) (busy : Bool) (c : Com) → IsValid c → Keeps c (service_notification l busy c)
unfolding service_notification
service_notification-Keeps l busy c v =
    let d = select 1 c in
    let k = framed d.usb c.serial_state c.notifications c.in_bootloader c v in
    if_both {x = report l d} {y = d} (Keeps c)
      (not (d.serial_state == get_or d.usb.xdata l.last_reported 0) && not busy)
      (Keeps-trans k (report-Keeps l d k.valid)) k

service-Keeps :
    (response : ℕ) (l : Layout) (changed : Usb → Usb) (poll_now : ℕ) (r : Registers) (busy : Bool)
    (now : ℕ) (c : Com)
    → IsValid c
    → Keeps c (service response l changed poll_now r busy now c)
unfolding service
service-Keeps response l changed poll_now r busy now c v =
    let d : Com = record c { usb = poll response (app l changed poll_now) r c.usb } in
    let k = framed d.usb c.serial_state c.notifications c.in_bootloader c v in
    let sent = service_data-Keeps d k.valid in
    if_both {x = record d { in_bootloader = true }}
      {y = if is_configured d then service_notification l busy (service_data d) else d} (Keeps c)
      (truth (get_or d.usb.xdata l.bootloader_soon 0) && ltb 70 (elapsed l now d))
      (framed d.usb c.serial_state c.notifications true c v)
      (if_both {x = service_notification l busy (service_data d)} {y = d} (Keeps c)
        (is_configured d)
        (Keeps-trans k
          (Keeps-trans sent (service_notification-Keeps l busy (service_data d) sent.valid)))
        k)

-- The host collects a packet.
abbrev pub collect : Com → Com
collect c = record c { in_flight = c.in_flight - 1 }

-- The port after sends that fit, services and packets collected; the list is what was sent.
pub data Run (c : Com) : List ℕ → Com → Type 0 where
  start : Run c [] c
  sends :
      {bytes : List ℕ} {d : Com}
      → Run c bytes d
      → (more : List ℕ) → length more ≤ (tx_available d).0
      → Run c (bytes ++ more) (tx_send more d)
  sends_byte :
      {bytes : List ℕ} {d : Com}
      → Run c bytes d
      → (byte : ℕ) → 0 < (tx_available d).0
      → Run c (bytes ++ byte ∷ []) (tx_send_byte byte d)
  serves :
      {bytes : List ℕ} {d : Com}
      → Run c bytes d
      → (response : ℕ) (l : Layout) (changed : Usb → Usb) (poll_now : ℕ) (r : Registers)
        (busy : Bool) (now : ℕ)
      → Run c bytes (service response l changed poll_now r busy now d)
  collects : {bytes : List ℕ} {d : Com} → Run c bytes d → Run c bytes (collect d)

-- From a valid port, in any order of sends that usbComTxAvailable allows, services and packets collected: all
-- bytes sent are in order in the packets and the FIFO, no packet is longer than 64 bytes, the FIFO never
-- holds more than two packets, and an empty packet is due exactly if the last one was full.
pub run_streams :
    {c d : Com} {bytes : List ℕ}
    → IsValid c
    → Run c bytes d
    → IsValid d × (stream d ≡ stream c ++ bytes)
run_streams {c} v start = (v, sym (append-nil (stream c)))
run_streams {c} v (sends {bytes} {d} run more fits) =
    let h = run_streams v run in
    let s = tx_send-Loads more d h.0 fits in
    (s.valid, s.appended ∙ ap (λ x. x ++ more) h.1 ∙ append_assoc (stream c) bytes more)
run_streams {c} v (sends_byte {bytes} {d} run byte fits) =
    let h = run_streams v run in
    let s = tx_send_byte-Loads byte d h.0 fits in
    (s.valid, s.appended ∙ ap (λ x. x ++ byte ∷ []) h.1 ∙ append_assoc (stream c) bytes (byte ∷ []))
run_streams v (serves {bytes} {d} run response l changed poll_now r busy now) =
    let h = run_streams v run in
    let k = service-Keeps response l changed poll_now r busy now d h.0 in (k.valid, k.same ∙ h.1)
run_streams v (collects {bytes} {d} run) =
    let h = run_streams v run in
    (
      record {
        counted = h.0.counted;
        short = h.0.short;
        double = omega (arith, h.0.double);
        full = ground (arith, h.0.full);
        sizes = h.0.sizes;
        soon = h.0.soon;
      },
      h.1,
    )

length-zero : (xs : List ℕ) → length xs ≡ 0 → xs ≡ []
length-zero [] h = refl
length-zero (x ∷ xs) h = absurd (omega (arith, h))

-- Nothing is loaded, and the transfer has ended for the host.
pub record Ended (bytes : List ℕ) (c : Com) : Type 0 where
  pub unloaded : c.in_fifo ≡ []
  pub short_last : ends_full c.in_packets ≡ false
  pub handed_over : joined c.in_packets ≡ bytes

send_packet_now-Ended :
    (c : Com) → length c.in_fifo < in_packet_size → Ended (stream c) (send_packet_now c)
unfolding send_packet_now
send_packet_now-Ended c short = record {
  unloaded = refl;
  short_last = ends_full-snoc c.in_packets c.in_fifo ∙ ground (arith, short);
  handed_over = joined-snoc c.in_packets c.in_fifo;
}

service_data-Ended : (c : Com) → IsValid c → c.in_flight ≡ 0 → Ended (stream c) (service_data c)
unfolding service_data
service_data-Ended c v collected =
    let d = select 4 c in
    if_cases {A = Com} (Ended (stream c))
      (truth c.loaded || c.send_empty_soon && not (ltb 0 c.in_flight)) (send_packet_now d) d
      (λ e. send_packet_now-Ended d (omega (arith, v.counted, v.short)))
      (λ e.
        let none : c.loaded ≡ 0 = ground (arith, e) in
        let quiet : c.send_empty_soon ≡ false = ground (arith, e, collected) in
        let unloaded = length-zero c.in_fifo (sym v.counted ∙ none) in
        record {
          unloaded = unloaded;
          short_last = sym v.soon ∙ quiet;
          handed_over =
              sym (append-nil (joined c.in_packets))
              ∙ ap (λ f. joined c.in_packets ++ f) (sym unloaded);
        })

-- Nothing of the data endpoint changes in the rest of a service.
Ended-same :
    {bytes : List ℕ} {c d : Com}
    → Ended bytes c
    → d.in_fifo ≡ c.in_fifo
    → d.in_packets ≡ c.in_packets
    → Ended bytes d
Ended-same h f p = record {
  unloaded = f ∙ h.unloaded;
  short_last = ap ends_full p ∙ h.short_last;
  handed_over = ap joined p ∙ h.handed_over;
}

service_notification-Ended :
    (l : Layout) (busy : Bool) {bytes : List ℕ} (c : Com)
    → Ended bytes c
    → Ended bytes (service_notification l busy c)
unfolding service_notification report
service_notification-Ended l busy {bytes} c h =
    let d = select 1 c in
    if_both {A = Com} {x = report l d} {y = d} (Ended bytes)
      (not (d.serial_state == get_or d.usb.xdata l.last_reported 0) && not busy)
      (Ended-same h refl refl) (Ended-same h refl refl)

unset_test : (n t : ℕ) → (n ≡ 0) ⊎ (t ≤ 70) → (truth n && ltb 70 t) ≡ true → ⊥
unset_test n t quiet e = ground (arith, quiet, e)

equal_test : (m n : ℕ) → m ≡ n → (m == n) ≡ false → ⊥
equal_test m n e f = ground (arith, e, f)

-- Once the host has collected every packet, a call of usbComService whose poll finds the device configured
-- hands over all that has been sent, and ends the transfer for the host with a packet that is not full. The
-- host has not asked for the bootloader, or asked no more than 70 ms ago.
pub service-Ended :
    (response : ℕ) (l : Layout) (changed : Usb → Usb) (poll_now : ℕ) (r : Registers) (busy : Bool)
    (now : ℕ) (c : Com)
    → IsValid c
    → c.in_flight ≡ 0
    → (poll response (app l changed poll_now) r c.usb).device_state ≡ configured
    → (get_or (poll response (app l changed poll_now) r c.usb).xdata l.bootloader_soon 0 ≡ 0)
      ⊎ (elapsed l now (record c { usb = poll response (app l changed poll_now) r c.usb }) ≤ 70)
    → Ended (stream c) (service response l changed poll_now r busy now c)
unfolding service
service-Ended response l changed poll_now r busy now c v collected state quiet =
    let d : Com = record c { usb = poll response (app l changed poll_now) r c.usb } in
    let k = framed d.usb c.serial_state c.notifications c.in_bootloader c v in
    if_cases {A = Com} (Ended (stream c))
      (truth (get_or d.usb.xdata l.bootloader_soon 0) && ltb 70 (elapsed l now d))
      (record d { in_bootloader = true })
      (if is_configured d then service_notification l busy (service_data d) else d)
      (λ e. absurd (unset_test _ _ quiet e))
      (λ e.
        if_cases {A = Com} (Ended (stream c)) (is_configured d)
          (service_notification l busy (service_data d)) d
          (λ e.
            service_notification-Ended l busy (service_data d)
              (service_data-Ended d k.valid collected))
          (λ e. absurd (equal_test _ _ state e)))
