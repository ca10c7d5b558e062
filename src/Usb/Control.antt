-- ===== src/Usb/Control.antt =====
-- Whole control transfers: what is sent over the polls of a control read, and what every received packet is
-- answered with.
use wixel_sdk.Base.{
  ℕ, zero, suc, ◌+◌, ◌-◌, ◌*◌, ◌^◌, ◌≤◌, ◌<◌, ◌≡◌, refl, sym, ap, ap₂, subst, ◌∙◌, ◌⊎◌, inl, inr,
  Bool, true, false, List, [], ◌∷◌, ◌++◌, append_assoc, if◌then◌else◌, ltb, ◌==◌, arith, u16,
  if_both, if_cases, get_or, set, get_or-set_ne, truth, ==_iff,
}
use wixel_sdk.Usb.Defs.{
  Usb, ControlState, idle, writing, reading, Write, cs0, fifo, copy_in, copy_out, write_fifo,
  read_fifo, emit,
}
use wixel_sdk.Usb.Requests.{App}
use wixel_sdk.Usb.Poll.{
  Registers, endpoint0, in_packet, last_packet, full_packet, out_packet, data_packet, setup_packet,
  take_data, take_setup, valid_data, write_done, acknowledge_data, prepare, is_read, is_write, flag,
}

-- A packet of the host on endpoint 0, with nothing else to report
abbrev pub packet : ℕ → List ℕ → Registers
packet n bytes = record {
  power = true;
  vin = false;
  usbcif = 0;
  usbiif = 1;
  usbcs0 = 1;
  usbcnt0 = n;
  received = bytes;
}

-- The bytes in the writes to the FIFO, in order.
abbrev pub sent_bytes : List Write → List ℕ
sent_bytes [] = []
sent_bytes (cs0 v ∷ ws) = sent_bytes ws
sent_bytes (fifo bs ∷ ws) = sent_bytes ws ++ bs

-- Polls that find endpoint 0 ready for the next packet to the host.
unfoldable pub in_polls : ℕ → ℕ → App → Registers → Usb → Usb
in_polls zero response app r s = s
in_polls (suc k) response app r s =
    in_polls k response app r (endpoint0 response app (record r { usbcs0 = 0 }) s)

copy_out-add :
    (a b p : ℕ) (xs : List ℕ)
    → p + a < 2 ^ 16
    → copy_out (a + b) p xs ≡ copy_out a p xs ++ copy_out b (p + a) xs
copy_out-add zero b p xs h = ap₂ (λ n q. copy_out n q xs) (omega arith) (omega arith)
copy_out-add (suc a) b p xs h =
    let next : u16 (p + 1) ≡ p + 1 = omega arith in
    ap (λ n. copy_out n p xs) {y = suc (a + b)} (omega arith)
    ∙ ap (◌∷◌ (get_or xs p 0)) (
        ap (λ q. copy_out (a + b) q xs) next
        ∙ copy_out-add a b (p + 1) xs (omega arith)
        ∙ ap₂ (λ q m. copy_out a q xs ++ copy_out b m xs) (sym next) (omega arith))

-- The bytes have been sent after those that were sent before, and the transfer is over.
abbrev pub Completes : List Write → List ℕ → Usb → Type 0
Completes before bytes s =
    (sent_bytes s.writes ≡ sent_bytes before ++ bytes) × (s.control ≡ idle) × (s.bytes_left ≡ 0)

module _ (response : ℕ) (app : App) (r : Registers) where
  abbrev noted : Usb → Usb
  noted s = record s { usbindex = 0; activity = true }

  endpoint0-reading :
      (s : Usb)
      → s.control ≡ reading
      → endpoint0 response app (record r { usbcs0 = 0 }) s ≡ in_packet (noted s)
  unfolding endpoint0
  endpoint0-reading s h = ap (λ c. if is_read c then in_packet (noted s) else noted s) h

  endpoint0-idle :
      (s : Usb) → s.control ≡ idle → endpoint0 response app (record r { usbcs0 = 0 }) s ≡ noted s
  unfolding endpoint0
  endpoint0-idle s h = ap (λ c. if is_read c then in_packet (noted s) else noted s) h

  idle_polls-Completes :
      (k : ℕ) (before : List Write) (bytes : List ℕ) (s : Usb)
      → Completes before bytes s
      → Completes before bytes (in_polls k response app r s)
  unfolding in_polls
  idle_polls-Completes zero before bytes s h = h
  idle_polls-Completes (suc k) before bytes s h =
      subst (λ t. Completes before bytes (in_polls k response app r t)) (sym (endpoint0-idle s h.1))
        (idle_polls-Completes k before bytes (noted s) h)

  last_packet-Completes :
      (s : Usb)
      → Completes s.writes (copy_out s.bytes_left s.pointer s.xdata) (last_packet (noted s))
  unfolding last_packet write_fifo
  last_packet-Completes s = (refl, refl, refl)

  -- The bytes of a full packet and of those after it
  full_packet-bytes :
      (s : Usb)
      → 32 ≤ s.bytes_left
      → s.pointer + s.bytes_left < 2 ^ 16
      → let s' = full_packet (noted s) in
        sent_bytes s'.writes ++ copy_out s'.bytes_left s'.pointer s'.xdata
        ≡ sent_bytes s.writes ++ copy_out s.bytes_left s.pointer s.xdata
  unfolding full_packet write_fifo
  full_packet-bytes s large fits =
      let n = s.bytes_left in
      let p = s.pointer in
      let m = n - 32 in
      append_assoc (sent_bytes s.writes) (copy_out 32 p s.xdata) (copy_out m (u16 (p + 32)) s.xdata)
      ∙ ap (λ bs. sent_bytes s.writes ++ bs)
          (ap (λ q. copy_out 32 p s.xdata ++ copy_out m q s.xdata) {y = p + 32} (omega arith)
            ∙ sym (copy_out-add 32 m p s.xdata (omega arith))
            ∙ ap (λ i. copy_out i p s.xdata) (omega arith))

  full_packet-next :
      (s : Usb)
      → 32 ≤ s.bytes_left
      → s.pointer + s.bytes_left < 2 ^ 16
      → let s' = full_packet (noted s) in
        (s'.control ≡ s.control)
        × (s'.bytes_left ≡ s.bytes_left - 32)
        × (s'.pointer ≡ s.pointer + 32)
  unfolding full_packet write_fifo
  full_packet-next s large fits = (refl, refl, omega arith)

  -- Once there have been more polls than there are full packets, a control read has sent exactly the bytes
  -- at its pointer, in order, and has ended; the bytes do not run past the end of the addresses.
  pub control_read-in_polls :
      (k : ℕ) (s : Usb)
      → s.control ≡ reading
      → s.bytes_left < 32 * k
      → s.pointer + s.bytes_left < 2 ^ 16
      → Completes s.writes (copy_out s.bytes_left s.pointer s.xdata) (in_polls k response app r s)
  unfolding in_polls in_packet
  control_read-in_polls zero s h enough fits = absurd (omega (arith, enough))
  control_read-in_polls (suc k) s h enough fits =
      let bytes = copy_out s.bytes_left s.pointer s.xdata in
      subst (λ t. Completes s.writes bytes (in_polls k response app r t))
        (sym (endpoint0-reading s h))
        (if_cases (λ t. Completes s.writes bytes (in_polls k response app r t))
          (ltb s.bytes_left 32) (last_packet (noted s)) (full_packet (noted s))
          (λ small.
            idle_polls-Completes k s.writes bytes (last_packet (noted s)) (last_packet-Completes s))
          (λ more.
            let large : 32 ≤ s.bytes_left = ground (arith, more) in
            let next = full_packet-next s large fits in
            let ih =
              control_read-in_polls k (full_packet (noted s)) (next.0 ∙ h)
                (omega (arith, next, enough)) (omega (arith, next, fits, large)) in
            (ih.0 ∙ full_packet-bytes s large fits, ih.1, ih.2)))

-- The last write sets bit 6 of USBCS0, which clears OUTPKT_RDY.
abbrev pub clears : List Write → Bool
clears (cs0 v ∷ ws) = flag v 64
clears ws = false

acknowledge_data-clears : (c : ControlState) (s : Usb) → clears (acknowledge_data c s).writes ≡ true
acknowledge_data-clears idle s = refl
acknowledge_data-clears writing s = refl
acknowledge_data-clears reading s = refl

prepare-clears :
    (c : ControlState) (s : Usb)
    → s.control ≡ c
    → (clears (prepare c s).writes ≡ true) ⊎ (s.control ≡ reading)
prepare-clears idle s e = inl refl
prepare-clears writing s e =
    if_both {A = Usb} (λ t. (clears t.writes ≡ true) ⊎ (s.control ≡ reading)) (truth s.bytes_left)
      (inl refl) (inl refl)
prepare-clears reading s e = inr e

data_packet-clears :
    (app : App) (r : Registers) (s : Usb) → clears (data_packet app r s).writes ≡ true
unfolding data_packet
data_packet-clears app r s =
    let s' = take_data r s in
    if_both {x = emit (cs0 0x40) s'} {y = write_done app s'} (λ t. clears t.writes ≡ true)
      (truth s'.bytes_left) refl
      (acknowledge_data-clears (valid_data app s').control (valid_data app s'))

-- The packet `r` in the state `s` is taken for a SETUP packet: no control write is under way, and it has
-- 8 bytes.
abbrev pub IsSetup : Registers → Usb → Type 0
IsSetup r s = (is_write s.control ≡ false) × (r.usbcnt0 ≡ 8)

-- The last write clears OUTPKT_RDY, or the packet is a SETUP packet whose handling begins a control read.
abbrev pub Answered : ℕ → App → Registers → Usb → Usb → Type 0
Answered response app r s t =
    (clears t.writes ≡ true) ⊎ (IsSetup r s × ((take_setup response app r s).control ≡ reading))

setup_packet-Answered :
    (response : ℕ) (app : App) (r : Registers) (s : Usb)
    → IsSetup r s
    → Answered response app r s (setup_packet response app r s)
unfolding setup_packet
setup_packet-Answered response app r s setup =
    let s' = take_setup response app r s in answered (prepare-clears s'.control s' refl)
  where
    answered :
        let s' = take_setup response app r s in
        (clears (prepare s'.control s').writes ≡ true) ⊎ (s'.control ≡ reading)
        → Answered response app r s (setup_packet response app r s)
    answered (inl e) = inl e
    answered (inr e) = inr (setup, e)

-- The answer to every packet that endpoint 0 receives ends in a write that clears OUTPKT_RDY, with one
-- exception: a packet of 8 bytes outside a control write, which is taken for a SETUP packet, whose handling
-- begins a control read. That holds whatever the application makes of the packet; a stray packet is cleared
-- also during a control read.
pub out_packet-Answered :
    (response : ℕ) (app : App) (r : Registers) (s : Usb)
    → Answered response app r s (out_packet response app r s)
unfolding out_packet
out_packet-Answered response app r s =
    let setup = setup_packet response app r s in
    let stray = emit (cs0 0x40) s in
    let Fine = Answered response app r s in
    let data_answered : Fine (data_packet app r s) = inl (data_packet-clears app r s) in
    if_cases {A = Usb} Fine (is_write s.control) (data_packet app r s)
      (if r.usbcnt0 == 8 then setup else stray) (λ w. data_answered)
      (λ w.
        if_cases {A = Usb} Fine (r.usbcnt0 == 8) setup stray
          (λ e. setup_packet-Answered response app r s (w, (==_iff _ _).0 e)) (λ e. inl refl))

pub copy_in-outside :
    (n buffer i : ℕ) (bytes xs : List ℕ)
    → buffer + n < 2 ^ 16
    → (i < buffer) ⊎ (buffer + n ≤ i)
    → get_or (copy_in n buffer bytes xs) i 0 ≡ get_or xs i 0
copy_in-outside zero buffer i bytes xs fits out = refl
copy_in-outside (suc n) buffer i [] xs fits out =
    copy_in-outside n (u16 (buffer + 1)) i [] (set xs buffer 0) (omega arith) (ground (arith, out))
    ∙ get_or-set_ne xs buffer i 0 0 (ground (arith, out))
copy_in-outside (suc n) buffer i (b ∷ bytes) xs fits out =
    copy_in-outside n (u16 (buffer + 1)) i bytes (set xs buffer b) (omega arith)
      (ground (arith, out))
    ∙ get_or-set_ne xs buffer i b 0 (ground (arith, out))

-- A data packet of a control write, however long, is stored inside the buffer that the application gave:
-- memory outside it is as before, and the end of the buffer stays where it was.
pub take_data-bounds :
    (r : Registers) (s : Usb) (i : ℕ)
    → s.pointer + s.bytes_left < 2 ^ 16
    → (i < s.pointer) ⊎ (s.pointer + s.bytes_left ≤ i)
    → let s' = take_data r s in
      (get_or s'.xdata i 0 ≡ get_or s.xdata i 0)
      × (s'.pointer + s'.bytes_left ≡ s.pointer + s.bytes_left)
unfolding take_data read_fifo
take_data-bounds r s i fits out =
    let n = if ltb s.bytes_left r.usbcnt0 then s.bytes_left else r.usbcnt0 in
    let most : n ≤ s.bytes_left = ground arith in
    (
      copy_in-outside n s.pointer i r.received s.xdata (omega (arith, most))
          (ground (arith, out, most)),
      omega (arith, most),
    )
