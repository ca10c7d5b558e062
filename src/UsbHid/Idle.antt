-- ===== src/UsbHid/Idle.antt =====
-- The host's requests for the idle rate of the keyboard, through the polls of the USB core.
use wixel_sdk.Base.{
  ℕ, ◌+◌, ◌*◌, ◌/◌, ◌^◌, ◌<◌, ◌≡◌, refl, ap, ap₂, ◌∙◌, List, [], ◌∷◌, ◌++◌, arith, length, set,
  get_or-set_self, true, get_or-set_ne, length-set, if◌then◌else◌, u8, u16,
}
use wixel_sdk.Usb.Defs.{Usb, idle, cs0, control_read, control_acknowledge, write_fifo, emit}
use wixel_sdk.Usb.Poll.{
  Registers, endpoint0, out_packet, data_packet, setup_packet, take_setup, in_packet, last_packet,
  is_write, is_read,
}
use wixel_sdk.Usb.Control.{packet, sent_bytes}
use wixel_sdk.UsbHid.{Layout, app, setup_handler, store, idle_duration, byte_at}

abbrev pub set_idle_request : ℕ → List ℕ
set_idle_request d = 0x21 ∷ 0x0A ∷ 0 ∷ d ∷ 0 ∷ 0 ∷ 0 ∷ 0 ∷ []

abbrev pub get_idle_request : List ℕ
get_idle_request = 0xA1 ∷ 0x02 ∷ 0 ∷ 0 ∷ 0 ∷ 0 ∷ 1 ∷ 0 ∷ []

module _ (response : ℕ) (l : Layout) where
  abbrev host : Registers → Usb → Usb
  host r s = endpoint0 response (app l) r s

  abbrev asked : List ℕ → Usb → Usb
  asked request s = record s { setup = request; usbindex = 0; activity = true; control = idle }

  settle : Usb → Usb
  settle s = if is_read s.control then in_packet s else s

  abbrev duration : ℕ → ℕ
  duration d = u16 ((0 + d * 2 ^ 8) / 2 ^ 8 * 4)

  abbrev stored : ℕ → Usb → Usb
  stored d s =
      store (l.idle_duration + 1) (duration d / 2 ^ 8) (store l.idle_duration (u8 (duration d)) s)

  host-set_idle :
      (d : ℕ) (s : Usb)
      → s.control ≡ idle
      → host (packet 8 (set_idle_request d)) s
        ≡ emit (cs0 0x4A) (record (stored d (asked (set_idle_request d) s)) { bytes_left = 0 })
  unfolding endpoint0 out_packet setup_packet take_setup app setup_handler control_acknowledge
      settle
  host-set_idle d s h =
      let noted : Usb = record s { usbindex = 0; activity = true } in
      ap
        (λ c. settle (
          if is_write c
          then data_packet (app l) (packet 8 (set_idle_request d)) noted
          else setup_packet response (app l) (packet 8 (set_idle_request d)) noted))
        h

  -- What a request for the idle rate sends
  host-get_idle :
      (s : Usb)
      → s.control ≡ idle
      → l.response < length s.xdata
      → sent_bytes (host (packet 8 get_idle_request) s).writes
        ≡ sent_bytes s.writes ++ u8 (idle_duration l s / 4) ∷ []
  unfolding endpoint0 out_packet setup_packet take_setup app setup_handler control_read in_packet
      last_packet write_fifo settle
  host-get_idle s h room =
      let noted : Usb = record s { usbindex = 0; activity = true } in
      ap
        (λ c.
          sent_bytes
            (settle (
              if is_write c
              then data_packet (app l) (packet 8 get_idle_request) noted
              else setup_packet response (app l) (packet 8 get_idle_request) noted)).writes)
        h
      ∙ ap (λ b. sent_bytes s.writes ++ b ∷ [])
          (get_or-set_self s.xdata l.response (u8 (idle_duration l s / 4)) 0 room)

  idle_duration-stored :
      (d : ℕ) (s : Usb)
      → d < 256
      → l.idle_duration + 1 < length s.xdata
      → u8 (idle_duration l (stored d s) / 4) ≡ d
  idle_duration-stored d s hd room =
      let xs = set s.xdata l.idle_duration (u8 (duration d)) in
      let low : byte_at l.idle_duration (stored d s) ≡ u8 (duration d) =
        get_or-set_ne xs (l.idle_duration + 1) l.idle_duration (duration d / 2 ^ 8) 0
          (λ e. omega (arith, e))
        ∙ get_or-set_self s.xdata l.idle_duration (u8 (duration d)) 0 (omega (arith, room)) in
      let high : byte_at (l.idle_duration + 1) (stored d s) ≡ duration d / 2 ^ 8 =
        get_or-set_self xs (l.idle_duration + 1) (duration d / 2 ^ 8) 0
          (omega (arith, room, length-set s.xdata l.idle_duration (u8 (duration d)))) in
      ap₂ (λ a b. u8 ((a + b * 2 ^ 8) / 4)) low high ∙ omega arith

  -- The host sets the idle rate, and asks for it.
  abbrev pub set_and_get_idle : ℕ → Usb → Usb
  set_and_get_idle d s = host (packet 8 get_idle_request) (host (packet 8 (set_idle_request d)) s)

  -- The host is sent the idle rate that it has set, at the end of what was sent before. No transfer is under
  -- way, and the variables are inside memory.
  pub set_and_get_idle_lem :
      (d : ℕ) (s : Usb)
      → d < 256
      → s.control ≡ idle
      → l.idle_duration + 1 < length s.xdata
      → l.response < length s.xdata
      → sent_bytes (set_and_get_idle d s).writes ≡ sent_bytes s.writes ++ d ∷ []
  set_and_get_idle_lem d s hd h room room' =
      let t : Usb =
        emit (cs0 0x4A) (record (stored d (asked (set_idle_request d) s)) { bytes_left = 0 }) in
      let xs = set s.xdata l.idle_duration (u8 (duration d)) in
      ap (λ t. sent_bytes (host (packet 8 get_idle_request) t).writes) (host-set_idle d s h)
      ∙ host-get_idle t refl (
          omega (
            arith,
            room',
            length-set s.xdata l.idle_duration (u8 (duration d)),
            length-set xs (l.idle_duration + 1) (duration d / 2 ^ 8),
          ))
      ∙ ap (λ b. sent_bytes s.writes ++ b ∷ [])
          (idle_duration-stored d (asked (set_idle_request d) s) hd room)
