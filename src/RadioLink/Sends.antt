-- ===== src/RadioLink/Sends.antt =====
-- What a node puts on the air, step by step: each sending function of radio_link.c against the view.
use wixel_sdk.Base.{
  ℕ, ◌*◌, ◌<◌, ◌≡◌, ◌≢◌, refl, sym, ap, ap₂, subst, ◌∙◌, Bool, true, false, not, List, [], ◌∷◌,
  Option, none, some, arith, set, bit_and, if◌then◌else◌, ◌==◌, ℕ_discrete,
}
use wixel_sdk.RadioMac.{radio_mac_tx, radio_mac_rx}
use wixel_sdk.RadioLink.Defs.{Link, Node, type_ping, type_ack, type_reset, random_tx_delay}
use wixel_sdk.RadioLink.Handler.{
  Inputs, tx_data_packet, send_short, take_initiative, respond, set_activity, tx_reset_packet,
  listen, crc_failed, reset_packet,
}
use wixel_sdk.RadioLink.Bounds.{IsValid}
use wixel_sdk.RadioLink.Peer.{
  Payload, Message, Peer, on_air, peer, tx_contents, bare, carry, send, ping_of, initiative,
  message,
}
use wixel_sdk.RadioLink.Refine.{
  Loaded, queue_empty, queue_head, peer-headed, loaded-headed, sends_head, pairs,
}

-- A node sends the message, and has the view.
pub record Shows (n : Node) (o : Option Message) (p : Peer) : Type 0 where
  pub air : on_air n ≡ o
  pub view : peer n.link ≡ p
  pub loaded : Loaded n.link

-- A test that the code and the protocol share.
branch-Shows :
    (b : Bool) {x y : Node} {o o' : Option Message} {p p' : Peer}
    → (b ≡ true → Shows x o p)
    → (b ≡ false → Shows y o' p')
    → Shows (if b then x else y) (if b then o else o') (if b then p else p')
branch-Shows true hx hy = hx refl
branch-Shows false hx hy = hy refl

ping_of-carry :
    (seq : ℕ) {q r : List Payload} {x : Payload}
    → q ≡ x ∷ r
    → some (carry type_ping seq q) ≡ ping_of seq q
ping_of-carry seq {q} e = subst (λ z. some (carry type_ping seq z) ≡ ping_of seq z) (sym e) refl

-- The code's test for a packet to send is the protocol's for a queue that is not empty.
queue_test-Shows :
    (l : Link) (x y : Node) (g : List Payload → Option Message) (p : Peer)
    → IsValid l
    → (l.tx_int ≢ l.tx_main → Shows x (g (tx_contents l)) p)
    → (l.tx_int ≡ l.tx_main → Shows y (g []) p)
    → Shows (if not (l.tx_int == l.tx_main) then x else y) (g (tx_contents l)) p
queue_test-Shows l x y g p v hx hy = elim (ℕ_discrete l.tx_int l.tx_main) [
  | yes e ↦
      let t : not (l.tx_int == l.tx_main) ≡ false = ground arith in
      subst (λ b. Shows (if b then x else y) (g (tx_contents l)) p) (sym t)
        (subst (λ q. Shows y (g q) p) (sym (queue_empty l v e)) (hy e))
  | no ne ↦
      let t : not (l.tx_int == l.tx_main) ≡ true = ground arith in
      subst (λ b. Shows (if b then x else y) (g (tx_contents l)) p) (sym t) (hx ne)
]

module _ (n : Node) (v : IsValid n.link) (f : Loaded n.link) where
  pub tx_data_packet-Shows :
      (j : ℕ)
      → j < 4
      → n.link.tx_int ≢ n.link.tx_main
      → Shows (tx_data_packet (j * 64) n) (some (send (j * 64) (peer n.link))) (peer n.link)
  unfolding tx_data_packet radio_mac_tx
  tx_data_packet-Shows j hj ne = record {
    air = ap some (sends_head n.link v j hj ne f);
    view = peer-headed n.link v j hj;
    loaded = loaded-headed n.link v _ f;
  }

  pub send_short-Shows :
      (h : ℕ)
      → Shows
          (send_short h n)
          (some (record { kind = bit_and h 192; seq = bit_and h 1; load = none }))
          (peer n.link)
  unfolding radio_mac_tx
  send_short-Shows h = record {
    air =
        let (a, b, r, e) = pairs n.link.short_packet (omega (arith, v.short_size)) in
        ap (λ s. some (message (set (set s 0 1) 1 h))) e;
    view = refl;
    loaded = f;
  }

  pub listen-Shows : (t : ℕ) → Shows (listen t n) none (peer n.link)
  unfolding radio_mac_rx
  listen-Shows t = record { air = refl; view = refl; loaded = f }

  pub take_initiative-Shows : Shows (take_initiative n) (initiative (peer n.link)) (peer n.link)
  unfolding take_initiative initiative tx_reset_packet
  take_initiative-Shows =
      let reset : Shows (set_activity (tx_reset_packet n)) (some (bare type_reset)) (peer n.link) =
        (let s = send_short-Shows 192 in record { air = s.air; view = s.view; loaded = f }) in
      let ping : Shows
          (if not (n.link.tx_int == n.link.tx_main)
            then set_activity (tx_data_packet type_ping n)
            else listen 0 n)
          (ping_of n.link.tx_seq (tx_contents n.link)) (peer n.link) =
        queue_test-Shows n.link (set_activity (tx_data_packet type_ping n)) (listen 0 n)
          (ping_of n.link.tx_seq) (peer n.link) v
          (λ ne.
            let s = tx_data_packet-Shows 0 (omega arith) ne in
            record {
              air = s.air ∙ ping_of-carry n.link.tx_seq (queue_head n.link v ne);
              view = s.view;
              loaded = s.loaded;
            })
          (λ e. listen-Shows 0) in
      subst (Shows (take_initiative n) (initiative (peer n.link))) (same_if n.link.sending_reset)
        (branch-Shows n.link.sending_reset (λ _. reset) (λ _. ping))
    where
      same_if : (b : Bool) → (if b then peer n.link else peer n.link) ≡ peer n.link
      same_if true = refl
      same_if false = refl

  -- An answer of kind ACK or NAK, with the head of the queue if there is one.
  pub respond-Shows :
      (j : ℕ)
      → j < 4
      → bit_and (j * 64) 192 ≡ j * 64
      → bit_and (j * 64) 1 ≡ 0
      → Shows (respond (j * 64) n) (some (send (j * 64) (peer n.link))) (peer n.link)
  unfolding respond
  respond-Shows j hj hk hs =
      let short : Shows (send_short (j * 64) n) (some (bare (j * 64))) (peer n.link) =
        (let s = send_short-Shows (j * 64) in
          record {
            air = s.air ∙ ap₂ (λ a b. some (record { kind = a; seq = b; load = none })) hk hs;
            view = s.view;
            loaded = f;
          }) in
      let s =
        queue_test-Shows n.link (tx_data_packet (j * 64) n) (send_short (j * 64) n)
          (λ q. some (carry (j * 64) n.link.tx_seq q)) (peer n.link) v
          (λ ne. tx_data_packet-Shows j hj ne) (λ e. short) in
      record { air = s.air; view = s.view; loaded = s.loaded }

  pub reset_packet-Shows :
      Shows (reset_packet n) (some (bare type_ack)) (record (peer n.link) { rx_seq = 1 })
  unfolding reset_packet radio_mac_tx
  reset_packet-Shows = record {
    air =
        let (a, b, r, e) = pairs n.link.short_packet (omega (arith, v.short_size)) in
        ap (λ s. some (message (set (set s 0 1) 1 128))) e;
    view = refl;
    loaded = f;
  }

  pub crc_failed-Shows : (i : Inputs) → Shows (crc_failed i n) none (peer n.link)
  unfolding crc_failed
  crc_failed-Shows i =
      queue_test-Shows n.link (listen (random_tx_delay i.random n.link) n) (listen 0 n) (λ _. none)
        (peer n.link) v (λ ne. listen-Shows _) (λ e. listen-Shows _)
