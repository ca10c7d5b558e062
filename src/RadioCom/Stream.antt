-- ===== src/RadioCom/Stream.antt =====
-- `radioComTxSendByte` against a stream of bytes that is cut into packets of 18.
use wixel_sdk.Base.{
  if_cases, Bool, true, false, ℕ, zero, suc, ◌+◌, ◌<◌, ◌≤◌, ◌≡◌, ◌≢◌, refl, sym, ap, ap₂, subst,
  ◌∙◌, List, [], ◌∷◌, ◌++◌, Option, some, if◌then◌else◌, ◌==◌, arith, length, get_or, set, take,
  drop, write_byte, ℕ_discrete, get_or-set_self, length-append, length-take,
}
use wixel_sdk.RadioLink.Defs.{Link, payload_size, tx_available, tx_current_packet}
use wixel_sdk.RadioLink.Bounds.{IsValid, main_loop-IsValid}
use wixel_sdk.RadioLink.Peer.{Payload, tx_contents}
use wixel_sdk.RadioLink.Outbox.{
  write_main, write_main-IsValid, main_slot-write_main, tx_contents-write_main, main_slot, written,
  tx_contents-tx_send_packet,
}
use wixel_sdk.RadioCom.{RadioCom, Place, send_data_now, tx_send_byte, put_byte, start_packet}

take_snoc :
    (i x : ℕ) (xs : List ℕ) → i < length xs → take (suc i) (set xs i x) ≡ take i xs ++ x ∷ []
take_snoc i x [] h = absurd (omega arith)
take_snoc zero x (y ∷ ys) h = refl
take_snoc (suc i) x (y ∷ ys) h = ap (◌∷◌ y) (take_snoc i x ys (omega arith))

-- The same behind the two bytes of the header.
payload_snoc :
    (i x : ℕ) (xs : List ℕ)
    → suc (suc i) < length xs
    → take (suc i) (drop 2 (set xs (suc (suc i)) x)) ≡ take i (drop 2 xs) ++ x ∷ []
payload_snoc i x [] h = absurd (omega arith)
payload_snoc i x (a ∷ []) h = absurd (omega arith)
payload_snoc i x (a ∷ b ∷ r) h = take_snoc i x r (omega arith)

length-payload : (xs : List ℕ) → 2 ≤ length xs → length (drop 2 xs) + 2 ≡ length xs
length-payload [] h = absurd (omega arith)
length-payload (a ∷ []) h = absurd (omega arith)
length-payload (a ∷ b ∷ r) h = omega arith

drop-set_length : (xs : List ℕ) (x : ℕ) → drop 2 (set xs 1 x) ≡ drop 2 xs
drop-set_length [] x = refl
drop-set_length (a ∷ []) x = refl
drop-set_length (a ∷ b ∷ r) x = refl

-- The bytes of the packet that is being filled.
abbrev pub pending : RadioCom → List ℕ
pending c = take c.tx_bytes_loaded (drop 2 (main_slot c.node.link))

-- The queued packets and the bytes not yet in a packet.
abbrev pub stream : RadioCom → List Payload × List ℕ
stream c = (tx_contents c.node.link, pending c)

-- A byte joins the stream; 18 bytes make a data packet.
pub append_byte : ℕ → List Payload × List ℕ → List Payload × List ℕ
append_byte byte (q, bytes) =
    let bytes' = bytes ++ byte ∷ [] in
    if length bytes' == payload_size
    then (q ++ record { kind = 0; bytes = bytes' } ∷ [], [])
    else (q, bytes')

abbrev place : Link → ℕ → Option Place
place l i = some (record { buffer = l.tx_main; offset = i })

-- A packet that is being filled has a buffer, and the pointers point into it.
pub record IsFilling (c : RadioCom) : Type 0 where
  pub valid : IsValid c.node.link
  pub short : c.tx_bytes_loaded < payload_size
  pub packet_at : c.tx_bytes_loaded ≢ 0 → c.packet_pointer ≡ place c.node.link 1
  pub next_at : c.tx_bytes_loaded ≢ 0 → c.tx_pointer ≡ place c.node.link (1 + c.tx_bytes_loaded)
  pub has_room : c.tx_bytes_loaded ≢ 0 → tx_available c.node.link ≢ 0

module _ (byte : ℕ) (c : RadioCom) (f : IsFilling c) (free : tx_available c.node.link ≢ 0) where
  abbrev l : Link
  l = c.node.link

  -- The link with the byte in its place.
  abbrev filled : Link
  filled = record l {
    tx_packet = write_byte l.tx_packet l.tx_main (suc (suc c.tx_bytes_loaded)) byte;
  }

  abbrev loaded : RadioCom
  loaded = record c {
    packet_pointer = place l 1;
    tx_pointer = place l (2 + c.tx_bytes_loaded);
    node = record (c.node) { link = filled };
    tx_bytes_loaded = suc c.tx_bytes_loaded;
  }

  put_byte-start_packet : put_byte byte (start_packet c) ≡ loaded
  unfolding tx_current_packet
  put_byte-start_packet = elim (ℕ_discrete c.tx_bytes_loaded 0) [
    | yes e ↦ ground (arith, free, f.short)
    | no ne ↦ ground (arith, f.packet_at ne, f.next_at ne, f.short)
  ]

  slot_size : length (main_slot l) ≡ 20
  slot_size = f.valid.tx_sized.size_each l.tx_main f.valid.tx_main_in

  filled-IsValid : IsValid filled
  filled-IsValid = write_main-IsValid l (suc (suc c.tx_bytes_loaded)) byte f.valid

  pending-loaded : pending loaded ≡ pending c ++ byte ∷ []
  pending-loaded =
      ap (λ s. take (suc c.tx_bytes_loaded) (drop 2 s))
        (main_slot-write_main l (suc (suc c.tx_bytes_loaded)) byte f.valid)
      ∙ payload_snoc c.tx_bytes_loaded byte (main_slot l) (omega (arith, slot_size, f.short))

  length-pending : length (pending c) ≡ c.tx_bytes_loaded
  length-pending =
      length-take c.tx_bytes_loaded (drop 2 (main_slot l))
        (omega (arith, slot_size, f.short, length-payload (main_slot l) (omega (arith, slot_size))))

  -- The packet is full: its length is written, and it is sent.
  module _ (full : suc c.tx_bytes_loaded ≡ payload_size) where
    abbrev sized : Link
    sized = write_main filled 1 (suc c.tx_bytes_loaded) filled-IsValid

    sized_slot : main_slot sized ≡ set (main_slot filled) 1 (suc c.tx_bytes_loaded)
    sized_slot = main_slot-write_main filled 1 (suc c.tx_bytes_loaded) filled-IsValid

    slot_length : get_or (main_slot sized) 1 0 ≡ suc c.tx_bytes_loaded
    slot_length =
        ap (λ s. get_or s 1 0) sized_slot
        ∙ get_or-set_self (main_slot filled) 1 _ 0
            (omega (arith, filled-IsValid.tx_sized.size_each l.tx_main f.valid.tx_main_in))

    written-sized :
        written 0 (main_slot sized) ≡ record { kind = 0; bytes = pending c ++ byte ∷ [] }
    written-sized =
        ap (λ n. record { kind = 0; bytes = take n (drop 2 (main_slot sized)) }) slot_length
        ∙ ap (λ s. record { kind = 0; bytes = take (suc c.tx_bytes_loaded) (drop 2 s) }) sized_slot
        ∙ ap (λ s. record { kind = 0; bytes = take (suc c.tx_bytes_loaded) s })
            (drop-set_length (main_slot filled) (suc c.tx_bytes_loaded))
        ∙ ap (λ bs. record { kind = 0; bytes = bs }) pending-loaded

    stream-send_data_now :
        stream (send_data_now loaded)
        ≡ (tx_contents l ++ record { kind = 0; bytes = pending c ++ byte ∷ [] } ∷ [], [])
    unfolding send_data_now tx_available
    stream-send_data_now =
        ap (λ q. (q, []))
          (tx_contents-tx_send_packet 0 (record (c.node) { link = sized })
              (write_main-IsValid filled 1 (suc c.tx_bytes_loaded) filled-IsValid) (omega arith)
              (omega (arith, slot_length)) free
            ∙ ap₂ (λ q x. q ++ x ∷ [])
                (tx_contents-write_main filled 1 (suc c.tx_bytes_loaded) filled-IsValid
                  ∙ tx_contents-write_main l (suc (suc c.tx_bytes_loaded)) byte f.valid)
                written-sized)

  stream-loaded : stream loaded ≡ (tx_contents l, pending c ++ byte ∷ [])
  stream-loaded =
      ap₂ (λ q b. (q, b)) (tx_contents-write_main l (suc (suc c.tx_bytes_loaded)) byte f.valid)
        pending-loaded

abbrev send_if_full : RadioCom → RadioCom
send_if_full c = if c.tx_bytes_loaded == payload_size then send_data_now c else c

pick {ℓ} : {A : Type ℓ} {b c : Bool} (x y : A) → b ≡ c → (if b then x else y) ≡ (if c then x else y)
pick x y e = ap (λ b. if b then x else y) e

-- Sending a byte with a buffer free appends it to the stream: to the packet being filled, which is
-- queued as a data packet when it has 18 bytes.
pub stream-tx_send_byte :
    (byte : ℕ) (c : RadioCom)
    → IsFilling c
    → tx_available c.node.link ≢ 0
    → stream (tx_send_byte byte c) ≡ append_byte byte (stream c)
unfolding tx_send_byte append_byte
stream-tx_send_byte byte c f free =
    let size : length (pending c ++ byte ∷ []) ≡ suc c.tx_bytes_loaded =
      length-append (pending c) (byte ∷ [])
      ∙ ap (λ n. n + 1) (length-pending byte c f free)
      ∙ omega arith in
    let c' = loaded byte c f free in
    let x : List Payload × List ℕ =
      (tx_contents c.node.link ++ record { kind = 0; bytes = pending c ++ byte ∷ [] } ∷ [], []) in
    let y : List Payload × List ℕ = (tx_contents c.node.link, pending c ++ byte ∷ []) in
    subst (λ k. stream (send_if_full k) ≡ append_byte byte (stream c))
      (sym (put_byte-start_packet byte c f free))
      (elim (ℕ_discrete (suc c.tx_bytes_loaded) payload_size) [
        | yes full ↦
            let t : (suc c.tx_bytes_loaded == payload_size) ≡ true = ground arith in
            let u : true ≡ (length (pending c ++ byte ∷ []) == payload_size) =
              ground (arith, size) in
            ap stream (pick (send_data_now c') c' t)
            ∙ stream-send_data_now byte c f free full
            ∙ pick x y u
        | no ne ↦
            let t : (suc c.tx_bytes_loaded == payload_size) ≡ false = ground arith in
            let u : false ≡ (length (pending c ++ byte ∷ []) == payload_size) =
              ground (arith, size) in
            ap stream (pick (send_data_now c') c' t) ∙ stream-loaded byte c f free ∙ pick x y u
      ])

-- Sending a byte with a buffer free keeps the invariant of the packet being filled: a valid link, fewer
-- than 18 bytes, and if there are any, a buffer free and both pointers at their places in it.
pub tx_send_byte-IsFilling :
    (byte : ℕ) (c : RadioCom)
    → IsFilling c
    → tx_available c.node.link ≢ 0
    → IsFilling (tx_send_byte byte c)
unfolding tx_send_byte send_data_now tx_available
tx_send_byte-IsFilling byte c f free =
    subst (λ k. IsFilling (send_if_full k)) (sym (put_byte-start_packet byte c f free))
      (if_cases IsFilling (suc c.tx_bytes_loaded == payload_size) (send_data_now c') c'
        (λ t. record {
          valid = (main_loop-IsValid 0 0 (record (c.node) { link = sealed }) sealed_valid).1;
          short = omega arith;
          packet_at = λ ne. absurd (ne refl);
          next_at = λ ne. absurd (ne refl);
          has_room = λ ne. absurd (ne refl);
        })
        (λ t. record {
          valid = filled-IsValid byte c f free;
          short = ground (arith, f.short);
          packet_at = λ ne. refl;
          next_at = λ ne. ap (place c.node.link) (omega arith);
          has_room = λ ne. free;
        }))
  where
    c' : RadioCom
    c' = loaded byte c f free

    sealed : Link
    sealed =
        write_main (filled byte c f free) 1 (suc c.tx_bytes_loaded) (filled-IsValid byte c f free)

    sealed_valid : IsValid sealed
    sealed_valid =
        write_main-IsValid (filled byte c f free) 1 (suc c.tx_bytes_loaded)
          (filled-IsValid byte c f free)
