-- ===== src/UsbCom/Stream.antt =====
-- The bytes sent to the host: packets of at most 64 bytes, never more than two in the FIFO, with nothing
-- lost or moved.
use wixel_sdk.Base.{
  ℕ, zero, suc, ◌+◌, ◌-◌, ◌*◌, ◌≤◌, ◌<◌, ◌≡◌, refl, sym, ap, subst, ◌∙◌, ◌⊎◌, inl, inr, Bool, false,
  List, [], ◌∷◌, ◌++◌, append_assoc, append-nil, arith, length, take, drop, All, All-snoc,
  if◌then◌else◌, if_cases, ltb, ◌==◌, length-append, length-take, length-drop, take-++-drop, ==_iff,
}
use wixel_sdk.UsbCom.Port.{
  Com, in_packet_size, load, send_if_full, send_packet_now, tx_available, tx_send_rounds,
}

abbrev pub joined : List (List ℕ) → List ℕ
joined [] = []
joined (p ∷ ps) = p ++ joined ps

-- Everything written: the packets handed over and the bytes loaded for the next one.
abbrev pub stream : Com → List ℕ
stream c = joined c.in_packets ++ c.in_fifo

-- The last packet handed over was a full one, so the host waits for more.
abbrev pub ends_full : List (List ℕ) → Bool
ends_full [] = false
ends_full (p ∷ []) = length p == in_packet_size
ends_full (p ∷ q ∷ ps) = ends_full (q ∷ ps)

-- Up to a full packet loaded, with room for it in the FIFO.
pub record IsLoading (c : Com) : Type 0 where
  pub counted : c.loaded ≡ length c.in_fifo
  pub fits : c.loaded ≤ in_packet_size
  pub room : c.in_flight ≤ 1
  pub sizes : All (λ p. length p ≤ in_packet_size) c.in_packets
  pub soon : c.send_empty_soon ≡ ends_full c.in_packets

pub record IsValid (c : Com) : Type 0 where
  pub counted : c.loaded ≡ length c.in_fifo
  pub short : c.loaded < in_packet_size
  pub double : c.in_flight ≤ 2
  pub full : (c.in_flight ≤ 1) ⊎ (c.loaded ≡ 0)
  pub sizes : All (λ p. length p ≤ in_packet_size) c.in_packets
  pub soon : c.send_empty_soon ≡ ends_full c.in_packets

-- The bytes that both buffers of the FIFO still take
abbrev pub room : Com → ℕ
room c = (2 - c.in_flight) * in_packet_size - c.loaded

pub joined-snoc : (ps : List (List ℕ)) (p : List ℕ) → joined (ps ++ p ∷ []) ≡ joined ps ++ p
joined-snoc [] p = append-nil p
joined-snoc (q ∷ ps) p = ap (◌++◌ q) (joined-snoc ps p) ∙ sym (append_assoc q (joined ps) p)

pub ends_full-snoc :
    (ps : List (List ℕ)) (p : List ℕ) → ends_full (ps ++ p ∷ []) ≡ (length p == in_packet_size)
ends_full-snoc [] p = refl
ends_full-snoc (q ∷ []) p = refl
ends_full-snoc (q ∷ r ∷ ps) p = ends_full-snoc (r ∷ ps) p

pub send_packet_now-IsValid : (c : Com) → IsLoading c → IsValid (send_packet_now c)
unfolding send_packet_now
send_packet_now-IsValid c h = record {
  counted = refl;
  short = omega arith;
  double = omega (arith, h.room);
  full = inr refl;
  sizes =
      All-snoc (λ p. length p ≤ in_packet_size) c.in_packets c.in_fifo h.sizes
        (omega (arith, h.counted, h.fits));
  soon = ap (λ n. n == 64) h.counted ∙ sym (ends_full-snoc c.in_packets c.in_fifo);
}

pub stream-send_packet_now : (c : Com) → stream (send_packet_now c) ≡ stream c
unfolding send_packet_now
stream-send_packet_now c = append-nil _ ∙ joined-snoc c.in_packets c.in_fifo

room-send_packet_now :
    (c : Com) → c.in_flight ≤ 1 → c.loaded ≡ in_packet_size → room (send_packet_now c) ≡ room c
unfolding send_packet_now
room-send_packet_now c h e = ground (arith, h, e)

-- Bytes that fit in the packet are loaded, and the packet is handed over if that makes it full.
pub record Loads (bytes : List ℕ) (c d : Com) : Type 0 where
  pub valid : IsValid d
  pub appended : stream d ≡ stream c ++ bytes
  pub left : room d + length bytes ≡ room c

pub load-Loads :
    (bytes : List ℕ) (c : Com)
    → IsValid c
    → c.in_flight ≤ 1
    → c.loaded + length bytes ≤ in_packet_size
    → Loads bytes c (send_if_full (load bytes c))
load-Loads bytes c v one fits =
    let d = load bytes c in
    let loaded : d.loaded ≡ c.loaded + length bytes = omega (arith, fits) in
    let counted : d.loaded ≡ length d.in_fifo =
      omega (arith, loaded, v.counted, length-append c.in_fifo bytes) in
    let appended : stream d ≡ stream c ++ bytes =
      sym (append_assoc (joined c.in_packets) c.in_fifo bytes) in
    let left : room d + length bytes ≡ room c = ground (arith, one, fits, loaded) in
    let full : IsLoading d = record {
      counted = counted;
      fits = omega (arith, loaded, fits);
      room = one;
      sizes = v.sizes;
      soon = v.soon;
    } in
    if_cases {A = Com} (Loads bytes c) (d.loaded == in_packet_size) (send_packet_now d) d
      (λ e. record {
        valid = send_packet_now-IsValid d full;
        appended = stream-send_packet_now d ∙ appended;
        left = ap (λ n. n + length bytes) (room-send_packet_now d one ((==_iff _ _).0 e)) ∙ left;
      })
      (λ e. record {
        valid = record {
          counted = counted;
          short = ground (arith, e, full.fits);
          double = omega (arith, one);
          full = inl one;
          sizes = v.sizes;
          soon = v.soon;
        };
        appended = appended;
        left = left;
      })

Loads-nil : (c : Com) → IsValid c → Loads [] c c
Loads-nil c v = record { valid = v; appended = sym (append-nil (stream c)); left = omega arith }

Loads-trans : (xs ys : List ℕ) (c d e : Com) → Loads xs c d → Loads ys d e → Loads (xs ++ ys) c e
Loads-trans xs ys c d e f g = record {
  valid = g.valid;
  appended = g.appended ∙ ap (λ s. s ++ ys) f.appended ∙ append_assoc (stream c) xs ys;
  left = omega (arith, f.left, g.left, length-append xs ys);
}

pub tx_send_rounds-Loads :
    (rounds : ℕ) (bytes : List ℕ) (c : Com)
    → IsValid c
    → length bytes ≤ room c
    → length bytes ≤ rounds
    → Loads bytes c (tx_send_rounds rounds bytes c)
unfolding tx_send_rounds
tx_send_rounds-Loads zero [] c v fits enough = Loads-nil c v
tx_send_rounds-Loads zero (b ∷ bs) c v fits enough = absurd (omega (arith, enough))
tx_send_rounds-Loads (suc rounds) [] c v fits enough = Loads-nil c v
tx_send_rounds-Loads (suc rounds) (b ∷ bs) c v fits enough =
    let xs : List ℕ = b ∷ bs in
    let n = in_packet_size - c.loaded in
    let size = if ltb (length xs) n then length xs else n in
    let some : (0 < size) × (size ≤ length xs) × (size ≤ n) = ground (arith, v.short) in
    let taken = length-take size xs some.1 in
    let rest = length-drop size xs some.1 in
    let one : c.in_flight ≤ 1 = ground (arith, fits, v.double) in
    let d = send_if_full (load (take size xs) c) in
    let here = load-Loads (take size xs) c v one (omega (arith, taken, some)) in
    let there =
      tx_send_rounds-Loads rounds (drop size xs) d here.valid
        (omega (arith, here.left, taken, rest, fits)) (omega (arith, rest, some, enough)) in
    subst (λ ys. Loads ys c (tx_send_rounds rounds (drop size xs) d)) (take-++-drop size xs)
      (Loads-trans (take size xs) (drop size xs) c d _ here there)

-- What `usbComTxAvailable` reports is room in the FIFO.
pub tx_available-le-room : (c : Com) → IsValid c → (tx_available c).0 ≤ room c
unfolding tx_available
tx_available-le-room c v = ground (arith, v.double, v.full, v.short)
