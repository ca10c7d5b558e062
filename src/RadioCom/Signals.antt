-- ===== src/RadioCom/Signals.antt =====
-- `receiveMorePackets` against a walk over the packets in the inbox.
use wixel_sdk.Base.{
  ◌||◌, ℕ, zero, suc, ◌+◌, ◌<◌, ◌≡◌, ◌≢◌, refl, sym, ap, subst, ◌∙◌, Bool, true, false, not, ◌&&◌,
  List, [], ◌∷◌, Option, none, some, if◌then◌else◌, ◌==◌, arith, length, get_or, All, ℕ_discrete,
  Bool-cases, inl, inr,
}
use wixel_sdk.Base.Ring.{ring, ring_pop, length-ring, span, gap}
use wixel_sdk.RadioLink.Defs.{
  Link, rx_packet_count, rx_current_packet, rx_current_payload_type, rx_done_with_packet,
}
use wixel_sdk.RadioLink.Bounds.{IsValid}
use wixel_sdk.RadioCom.{
  RadioCom, receive_loop, receive_more_packets, take_data, take_signals, waiting_to_report,
}

-- The buffers received and not yet done with, oldest first: type, length, bytes.
abbrev pub inbox : Link → List (List ℕ)
inbox l = ring [] rx_packet_count l.rx_packet l.rx_main l.rx_int

-- What the caller can observe: the packets left, the control signals, the bytes left.
pub record Seen : Type 0 where
  pub packets : List (List ℕ)
  pub signals : ℕ
  pub left : ℕ

abbrev pub seen : RadioCom → Seen
seen c = record { packets = inbox c.node.link; signals = c.rx_signals; left = c.rx_bytes_left }

abbrev pub seen_of : Option RadioCom → Option Seen
seen_of none = none
seen_of (some c) = some (seen c)

-- Signals are taken in packet by packet up to the first data packet, or, when the order of data and
-- signals matters, up to the first signals that the caller has not seen.
pub scan : Bool → ℕ → Seen → List (List ℕ) → Seen
scan ordered last s [] = record s { packets = [] }
scan ordered last s (x ∷ q) =
    let next = record s { packets = q; signals = get_or x 2 0 } in
    let rest = scan ordered last next q in
    if get_or x 0 0 == 0
    then record s { packets = x ∷ q; left = get_or x 1 0 }
    else (if ordered && not (get_or x 2 0 == last) then next else rest)

abbrev pub Known : List (List ℕ) → Type 0
Known q = All (λ (x : List ℕ). get_or x 0 0 < 2) q

abbrev done : Link → Link
done l = record l { rx_main = (if l.rx_main == 2 then 0 else l.rx_main + 1) }

done-IsValid : (l : Link) → IsValid l → IsValid (done l)
done-IsValid l v = ground arith

empty_inbox : (l : Link) → IsValid l → l.rx_main ≡ l.rx_int → inbox l ≡ []
empty_inbox l v e = ap (span [] rx_packet_count l.rx_packet l.rx_main) {y = 0} (ground arith)

head_inbox :
    (l : Link)
    → IsValid l
    → l.rx_main ≢ l.rx_int
    → inbox l ≡ get_or l.rx_packet l.rx_main [] ∷ inbox (done l)
head_inbox l v ne =
    ring_pop [] rx_packet_count l.rx_packet l.rx_main l.rx_int v.rx_main_in v.rx_int_in ne

abbrev scan_of : RadioCom → List (List ℕ) → Option Seen
scan_of c q = some (scan c.rx_enforce_ordering c.last_rx_signals (seen c) q)

-- One round of the loop on a packet: data, signals to report, signals to pass over.
module _ (k : ℕ) (c : RadioCom) (ne : c.node.link.rx_main ≢ c.node.link.rx_int) where
  loop_data : rx_current_payload_type c.node.link ≡ 0 → receive_loop (suc k) c ≡ some (take_data c)
  unfolding receive_loop rx_current_packet rx_current_payload_type
  loop_data e = ground arith

  loop_stops :
      rx_current_payload_type c.node.link ≡ 1
      → waiting_to_report (take_signals c) ≡ true
      → receive_loop (suc k) c ≡ some (take_signals c)
  unfolding receive_loop rx_current_packet
  loop_stops e w = ground arith

  loop_goes_on :
      rx_current_payload_type c.node.link ≡ 1
      → waiting_to_report (take_signals c) ≡ false
      → receive_loop (suc k) c ≡ receive_loop k (take_signals c)
  unfolding receive_loop rx_current_packet
  loop_goes_on e w = ground arith

-- The walk over a packet of each kind.
module _ (ordered : Bool) (last : ℕ) (s : Seen) (x : List ℕ) (q : List (List ℕ)) where
  scan_data :
      get_or x 0 0 ≡ 0
      → record s { packets = x ∷ q; left = get_or x 1 0 } ≡ scan ordered last s (x ∷ q)
  unfolding scan
  scan_data e = ground arith

  scan_stops :
      get_or x 0 0 ≡ 1
      → ordered && not (get_or x 2 0 == last) ≡ true
      → record s { packets = q; signals = get_or x 2 0 } ≡ scan ordered last s (x ∷ q)
  unfolding scan
  scan_stops e w = ground arith

  scan_goes_on :
      get_or x 0 0 ≡ 1
      → ordered && not (get_or x 2 0 == last) ≡ false
      → scan ordered last (record s { packets = q; signals = get_or x 2 0 }) q
        ≡ scan ordered last s (x ∷ q)
  unfolding scan
  scan_goes_on e w = ground arith

abbrev Scans : ℕ → RadioCom → Type 0
Scans k c = seen_of (receive_loop k c) ≡ scan_of c (inbox c.node.link)

loop_empty :
    (k : ℕ) (c : RadioCom)
    → IsValid c.node.link
    → c.node.link.rx_main ≡ c.node.link.rx_int
    → Scans (suc k) c
unfolding receive_loop rx_current_packet scan
loop_empty k c v e =
    let stops : receive_loop (suc k) c ≡ some c = ground arith in
    ap seen_of stops
    ∙ ap (λ q. some (record (seen c) { packets = q })) (empty_inbox c.node.link v e)
    ∙ ap (scan_of c) (sym (empty_inbox c.node.link v e))

-- A round on a packet, given the rounds that follow it.
loop_round :
    (k : ℕ) (c : RadioCom)
    → IsValid c.node.link
    → c.node.link.rx_main ≢ c.node.link.rx_int
    → rx_current_payload_type c.node.link < 2
    → Scans k (take_signals c)
    → Scans (suc k) c
unfolding rx_current_payload_type rx_done_with_packet
loop_round k c v ne known ih =
    let cons = head_inbox c.node.link v ne in
    let x = get_or c.node.link.rx_packet c.node.link.rx_main [] in
    let q = inbox (done c.node.link) in
    subst (λ i. seen_of (receive_loop (suc k) c) ≡ scan_of c i) (sym cons)
      (elim (ℕ_discrete (get_or x 0 0) 0) [
        | yes e ↦
            ap seen_of (loop_data k c ne e)
            ∙ ap (λ i. some (record (seen c) { packets = i; left = get_or x 1 0 })) cons
            ∙ ap some (scan_data c.rx_enforce_ordering c.last_rx_signals (seen c) x q e)
        | no n0 ↦
            let e : get_or x 0 0 ≡ 1 = omega arith in
            elim (Bool-cases (waiting_to_report (take_signals c))) [
              | inl w ↦
                  ap seen_of (loop_stops k c ne e w)
                  ∙ ap some (scan_stops c.rx_enforce_ordering c.last_rx_signals (seen c) x q e w)
              | inr w ↦
                  ap seen_of (loop_goes_on k c ne e w)
                  ∙ ih
                  ∙ ap some (scan_goes_on c.rx_enforce_ordering c.last_rx_signals (seen c) x q e w)
            ]
      ])

loop-Scans :
    (k : ℕ) (c : RadioCom)
    → IsValid c.node.link
    → length (inbox c.node.link) < k
    → Known (inbox c.node.link)
    → Scans k c
unfolding rx_current_payload_type rx_done_with_packet
loop-Scans zero c v h known = absurd (omega arith)
loop-Scans (suc k) c v h known = elim (ℕ_discrete c.node.link.rx_main c.node.link.rx_int) [
  | yes e ↦ loop_empty k c v e
  | no ne ↦
      let cons = head_inbox c.node.link v ne in
      let known' = subst Known cons known in
      let h' : length (inbox (done c.node.link)) < k = omega (arith, ap length cons) in
      loop_round k c v ne known'.0
        (loop-Scans k (take_signals c) (done-IsValid c.node.link v) h' known'.1)
]

-- With a valid link and an inbox of data and control signals only, `receiveMorePackets` returns, and
-- what can be observed is: nothing new if bytes or signals are still to be read, and otherwise the
-- walk over the inbox.
pub receive_more_packets_scans :
    (c : RadioCom)
    → IsValid c.node.link
    → Known (inbox c.node.link)
    → seen_of (receive_more_packets c) ≡ (
        if not (c.rx_bytes_left == 0) || waiting_to_report c
        then some (seen c)
        else some (scan c.rx_enforce_ordering c.last_rx_signals (seen c) (inbox c.node.link)))
unfolding receive_more_packets
receive_more_packets_scans c v known =
    let size : length (inbox c.node.link) < rx_packet_count = omega (
      arith,
      gap-lt c.node.link v,
      length-ring [] rx_packet_count c.node.link.rx_packet c.node.link.rx_main c.node.link.rx_int,
    ) in
    either (not (c.rx_bytes_left == 0)) (waiting_to_report c) (receive_loop rx_packet_count c)
      (scan_of c (inbox c.node.link)) (loop-Scans rx_packet_count c v size known)
  where
    gap-lt : (l : Link) → IsValid l → gap rx_packet_count l.rx_main l.rx_int < rx_packet_count
    gap-lt l v = ground arith

    either :
        (a b : Bool) (y : Option RadioCom) (t : Option Seen)
        → seen_of y ≡ t
        → seen_of (if a then some c else (if b then some c else y))
          ≡ (if a || b then some (seen c) else t)
    either true b y t h = refl
    either false true y t h = refl
    either false false y t h = h

-- A packet that is neither data nor control signals stays at the front: no number of rounds of the
-- loop of `receiveMorePackets` suffices.
pub receive_loop_stuck :
    (k : ℕ) (c : RadioCom)
    → c.node.link.rx_main ≢ c.node.link.rx_int
    → 1 < rx_current_payload_type c.node.link
    → receive_loop k c ≡ none
unfolding receive_loop rx_current_packet rx_current_payload_type
receive_loop_stuck zero c ne other = refl
receive_loop_stuck (suc k) c ne other = ground (arith, receive_loop_stuck k c ne other)
