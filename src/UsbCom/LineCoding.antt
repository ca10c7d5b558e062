-- ===== src/UsbCom/LineCoding.antt =====
-- The host's requests for the line coding, through the polls of the USB core: what the host sets is what it
-- gets.
use wixel_sdk.Base.{
  ℕ, zero, suc, ◌+◌, ◌^◌, ◌≤◌, ◌<◌, ◌≡◌, refl, sym, ap, ap₂, subst, ◌∙◌, ◌⊎◌, inl, true, ◌&&◌, List,
  [], ◌∷◌, ◌++◌, arith, length, get_or, set, get_or-set_self, get_or-set_ne, length-set,
  if◌then◌else◌, if_both, ◌==◌, u8, u16,
}
use wixel_sdk.Usb.Defs.{
  Usb, idle, Write, cs0, copy_in, copy_out, control_read, control_write, read_fifo, write_fifo,
  emit,
}
use wixel_sdk.Usb.Poll.{
  Registers, endpoint0, out_packet, data_packet, setup_packet, take_setup, take_data,
  acknowledge_data, in_packet, last_packet, is_write, is_read,
}
use wixel_sdk.Usb.Control.{packet, sent_bytes, copy_in-outside}
use wixel_sdk.UsbCom.Callbacks.{Layout, app, setup_handler, control_write_handler, store, dte_rate}

abbrev pub set_line_coding : List ℕ
set_line_coding = 0x21 ∷ 0x20 ∷ 0 ∷ 0 ∷ 0 ∷ 0 ∷ 7 ∷ 0 ∷ []

abbrev pub get_line_coding : List ℕ
get_line_coding = 0xA1 ∷ 0x21 ∷ 0 ∷ 0 ∷ 0 ∷ 0 ∷ 7 ∷ 0 ∷ []

-- Bytes copied into memory are copied out again.
copy_out-copy_in :
    (n p : ℕ) (bytes xs : List ℕ)
    → length bytes ≡ n
    → p + n ≤ length xs
    → p + n < 2 ^ 16
    → copy_out n p (copy_in n p bytes xs) ≡ bytes
copy_out-copy_in zero p [] xs e room fits = refl
copy_out-copy_in zero p (b ∷ bs) xs e room fits = absurd (omega (arith, e))
copy_out-copy_in (suc n) p [] xs e room fits = absurd (omega (arith, e))
copy_out-copy_in (suc n) p (b ∷ bs) xs e room fits =
    let next : u16 (p + 1) ≡ p + 1 = omega arith in
    let ys = set xs p b in
    ap₂ ◌∷◌
      (copy_in-outside n (u16 (p + 1)) p bs ys (omega arith) (inl (omega arith))
        ∙ get_or-set_self xs p b 0 (omega arith))
      (ap (λ q. copy_out n q (copy_in n q bs ys)) next
        ∙ copy_out-copy_in n (p + 1) bs ys (omega (arith, e)) (omega (arith, length-set xs p b))
            (omega arith))

copy_out-set_ne :
    (n p i v : ℕ) (xs : List ℕ)
    → p + n < 2 ^ 16
    → (i < p) ⊎ (p + n ≤ i)
    → copy_out n p (set xs i v) ≡ copy_out n p xs
copy_out-set_ne zero p i v xs fits out = refl
copy_out-set_ne (suc n) p i v xs fits out =
    ap₂ ◌∷◌ (get_or-set_ne xs i p v 0 (ground (arith, out)))
      (copy_out-set_ne n (u16 (p + 1)) i v xs (omega arith) (ground (arith, out)))

module _ (response : ℕ) (l : Layout) (changed : Usb → Usb) (now : ℕ) where
  abbrev host : Registers → Usb → Usb
  host r s = endpoint0 response (app l changed now) r s

  abbrev noted : Usb → Usb
  noted s = record s { usbindex = 0; activity = true }

  -- What a poll does after a packet
  settle : Usb → Usb
  settle s = if is_read s.control then in_packet s else s

  abbrev asked : List ℕ → Usb → Usb
  asked request s = record s { setup = request; usbindex = 0; activity = true }

  host-set_request :
      (s : Usb)
      → s.control ≡ idle
      → host (packet 8 set_line_coding) s
        ≡ emit (cs0 0x40) (control_write 7 l.line_coding (asked set_line_coding s))
  unfolding endpoint0 out_packet setup_packet take_setup app setup_handler control_write settle
  host-set_request s h =
      ap
        (λ c. settle (
          if is_write c
          then data_packet (app l changed now) (packet 8 set_line_coding) (noted s)
          else setup_packet response (app l changed now) (packet 8 set_line_coding) (noted s)))
        h

  host-get_request :
      (s : Usb)
      → s.control ≡ idle
      → host (packet 8 get_line_coding) s
        ≡ last_packet (control_read 7 l.line_coding (asked get_line_coding s))
  unfolding endpoint0 out_packet setup_packet take_setup app setup_handler control_read in_packet
      settle
  host-get_request s h =
      ap
        (λ c. settle (
          if is_write c
          then data_packet (app l changed now) (packet 8 get_line_coding) (noted s)
          else setup_packet response (app l changed now) (packet 8 get_line_coding) (noted s)))
        h

  -- The line coding is in memory, nothing more has been sent, and the request is over.
  record Holds (bytes : List ℕ) (before : List Write) (s : Usb) : Type 0 where
    over : s.control ≡ idle
    stored : copy_out 7 l.line_coding s.xdata ≡ bytes
    silent : sent_bytes s.writes ≡ sent_bytes before

  -- The variables of the bootloader request are elsewhere in memory than the line coding.
  abbrev pub Apart : ℕ → Type 0
  Apart at = (at < l.line_coding) ⊎ (l.line_coding + 7 ≤ at)

  host-set_bytes :
      (bytes : List ℕ) (s : Usb)
      → ((u : Usb) → changed u ≡ u)
      → length bytes ≡ 7
      → l.line_coding + 7 ≤ length s.xdata
      → l.line_coding + 7 < 2 ^ 16
      → Apart l.bootloader_soon
      → Apart l.request_time
      → Holds bytes s.writes (
          host
            (packet 7 bytes)
            (emit (cs0 0x40) (control_write 7 l.line_coding (asked set_line_coding s))))
  unfolding endpoint0 out_packet data_packet take_data read_fifo app control_write_handler
      control_write settle
  host-set_bytes bytes s passive size room fits soon time =
      let t : Usb =
        take_data (packet 7 bytes)
          (emit (cs0 0x40) (control_write 7 l.line_coding (asked set_line_coding s))) in
      let requested : Usb → Usb =
        λ u. store l.request_time (u8 now) (store l.bootloader_soon 1 u) in
      let answer : Usb → Usb =
        λ v. settle (acknowledge_data v.control (record v { usbindex = 0 })) in
      let stored = copy_out-copy_in 7 l.line_coding bytes s.xdata size room fits in
      let late = set (copy_in 7 l.line_coding bytes s.xdata) l.bootloader_soon 1 in
      subst
        (λ u. Holds bytes s.writes (
          answer (
            if dte_rate l u == 333 && get_or u.xdata l.bootloader_soon 0 == 0
            then requested u
            else u)))
        (sym (passive t))
        (if_both {A = Usb} {x = requested t} {y = t} (λ v. Holds bytes s.writes (answer v))
          (dte_rate l t == 333 && get_or t.xdata l.bootloader_soon 0 == 0)
          (record {
            over = refl;
            stored =
                copy_out-set_ne 7 l.line_coding l.request_time (u8 now) late fits time
                ∙ copy_out-set_ne 7 l.line_coding l.bootloader_soon 1
                    (copy_in 7 l.line_coding bytes s.xdata) fits soon
                ∙ stored;
            silent = refl;
          })
          (record { over = refl; stored = stored; silent = refl }))

  host-gets :
      (bytes : List ℕ) (before : List Write) (s : Usb)
      → Holds bytes before s
      → sent_bytes (host (packet 8 get_line_coding) s).writes ≡ sent_bytes before ++ bytes
  unfolding last_packet write_fifo control_read
  host-gets bytes before s h =
      ap (λ t. sent_bytes t.writes) (host-get_request s h.over) ∙ ap₂ ◌++◌ h.silent h.stored

  -- The host sets the line coding, and asks for it.
  abbrev pub set_and_get : List ℕ → Usb → Usb
  set_and_get bytes s =
      host (packet 8 get_line_coding) (host (packet 7 bytes) (host (packet 8 set_line_coding) s))

  -- The host is sent the seven bytes of the line coding that it has set, in one packet at the end of what
  -- was sent before. No transfer is under way, the line coding is inside memory and apart from the
  -- variables of the bootloader request, and the application's handler leaves the USB library alone.
  pub set_and_get-line_coding :
      (bytes : List ℕ) (s : Usb)
      → s.control ≡ idle
      → ((u : Usb) → changed u ≡ u)
      → length bytes ≡ 7
      → l.line_coding + 7 ≤ length s.xdata
      → l.line_coding + 7 < 2 ^ 16
      → Apart l.bootloader_soon
      → Apart l.request_time
      → sent_bytes (set_and_get bytes s).writes ≡ sent_bytes s.writes ++ bytes
  set_and_get-line_coding bytes s h passive size room fits soon time =
      ap (λ t. sent_bytes (host (packet 8 get_line_coding) (host (packet 7 bytes) t)).writes)
        (host-set_request s h)
      ∙ host-gets bytes s.writes _ (host-set_bytes bytes s passive size room fits soon time)
