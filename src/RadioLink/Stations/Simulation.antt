-- ===== src/RadioLink/Stations/Simulation.antt =====
-- Every step of two stations is a step of the protocol.
use wixel_sdk.Base.{
  ℕ, ◌<◌, ◌≡◌, ◌≢◌, sym, ap, ap₂, subst, ◌∙◌, true, false, not, List, [], ◌∷◌, ◌++◌, map, Option,
  none, some, arith, length, get_or, set, byte_of, length-set, get_or-set_self, get_or-set_ne,
  if◌then◌else◌, ℕ_discrete,
}
use wixel_sdk.Base.Ring.{ring-set_end}
use wixel_sdk.RadioMac.{Event, on_rx}
use wixel_sdk.RadioLink.Defs.{
  Link, rx_packet_count, tx_send_packet, tx_available, rx_done_with_packet,
}
use wixel_sdk.RadioLink.Handler.{Inputs, event_handler}
use wixel_sdk.RadioLink.Bounds.{IsValid, event_handler-IsValid, main_loop-IsValid}
use wixel_sdk.RadioLink.Peer.{Message, Peer, peer, message, rx_payload, rx_contents, answer}
use wixel_sdk.RadioLink.Refine.{Loaded}
use wixel_sdk.RadioLink.Sends.{Shows}
use wixel_sdk.RadioLink.Takes.{rx_slot}
use wixel_sdk.RadioLink.Receives.{event_handler_refines, handled}
use wixel_sdk.RadioLink.Outbox.{
  written, main_slot, tx_contents-tx_send_packet, tx_send_packet-Loaded,
  rx_contents-rx_done_with_packet, write_main-IsValid, tx_contents-write_main, write_main-Loaded,
}
use wixel_sdk.RadioLink.World.{
  Side, Step, Reach, puts, takes, falls_silent, is_heard, other, here, next,
}
use wixel_sdk.RadioLink.Stations.{
  Station, side, receive, handles, hears, fills, sends_packet, takes_packet,
}

-- The invariants of radio_link.c, and packets longer than their header.
pub record IsReady (s : Station) : Type 0 where
  pub valid : IsValid s.node.link
  pub loaded : Loaded s.node.link

module _ (bytes : List ℕ) (l : Link) (v : IsValid l) (size : length bytes ≡ 22) where
  abbrev received_link : Link
  received_link = record l { rx_packet = set l.rx_packet l.rx_int bytes }

  received_link-IsValid : IsValid received_link
  received_link-IsValid = record {
    rx_sized = record {
      count_all = length-set l.rx_packet l.rx_int bytes ∙ v.rx_sized.count_all;
      size_each = λ j h. elim (ℕ_discrete l.rx_int j) [
        | yes e ↦
            ap (λ k. length (get_or (set l.rx_packet l.rx_int bytes) k [])) (sym e)
            ∙ ap length (
                get_or-set_self l.rx_packet l.rx_int bytes []
                  (omega (arith, v.rx_sized.count_all, v.rx_int_in)))
            ∙ size
        | no ne ↦
            ap length (get_or-set_ne l.rx_packet l.rx_int j bytes [] ne) ∙ v.rx_sized.size_each j h
      ];
    };
    tx_sized = v.tx_sized;
    short_size = v.short_size;
    rx_main_in = v.rx_main_in;
    rx_int_in = v.rx_int_in;
    tx_main_in = v.tx_main_in;
    tx_int_in = v.tx_int_in;
    rx_seq_bit = v.rx_seq_bit;
    tx_seq_bit = v.tx_seq_bit;
    tries_byte = v.tries_byte;
  }

  peer-received_link : peer received_link ≡ peer l
  peer-received_link =
      ap (λ q. record (peer l) { inbox = map rx_payload q })
        (ring-set_end [] rx_packet_count l.rx_packet l.rx_main l.rx_int bytes v.rx_main_in
          v.rx_int_in)

  rx_slot-received_link : rx_slot received_link ≡ bytes
  rx_slot-received_link =
      get_or-set_self l.rx_packet l.rx_int bytes []
        (omega (arith, v.rx_sized.count_all, v.rx_int_in))

-- What a station looks like after an event.
side-handles :
    (i : Inputs) (e : Event) (s : Station) (o : Option Message) (p : Peer)
    → Shows (event_handler i e s.node) o p
    → side (handles i e s) ≡ record { peer = p; air = o; sent = s.sent; taken = s.taken }
side-handles i e s o p h =
    ap₂ (λ p o. record { peer = p; air = o; sent = s.sent; taken = s.taken }) h.view h.air

handles-IsReady :
    (i : Inputs) (e : Event) (s : Station) (o : Option Message) (p : Peer)
    → IsReady s
    → Shows (event_handler i e s.node) o p
    → IsReady (handles i e s)
handles-IsReady i e s o p r h = record {
  valid = event_handler-IsValid i e s.node r.valid;
  loaded = h.loaded;
}

-- The protocol's steps from one pair of stations to another, which are ready.
pub record Simulated (w v : Station × Station) : Type 0 where
  pub steps : Reach (side w.0, side w.1) (side v.0, side v.1)
  pub ready : IsReady v.0 × IsReady v.1

-- An event without a packet.
pub event-Simulated :
    (a b : Station) (i : Inputs) (e : Event) (o : Option Message)
    → IsReady a
    → IsReady b
    → Shows (event_handler i e a.node) o (peer a.node.link)
    → Step (side a, side b) (record (side a) { air = o }, side b)
    → Simulated (a, b) (handles i e a, b)
event-Simulated a b i e o ra rb h st = record {
  steps =
      subst (λ z. Reach (side a, side b) (z, side b))
        (sym (side-handles i e a o (peer a.node.link) h)) (next here st);
  ready = (handles-IsReady i e a o (peer a.node.link) ra h, rb);
}

-- The event handler on a packet received.
hears-Shows :
    (i : Inputs) (bytes : List ℕ) (s : Station)
    → IsReady s
    → length bytes ≡ 22
    → get_or bytes 0 0 < 256
    → let r = handled i on_rx (message bytes) (peer s.node.link) in
      Shows (event_handler i on_rx (receive bytes s.node)) r.0 r.1
hears-Shows i bytes s r size byte =
    let n = receive bytes s.node in
    let slot = rx_slot-received_link bytes s.node.link r.valid size in
    let shown = λ (b : List ℕ) (p : Peer).
      Shows (event_handler i on_rx n) (handled i on_rx (message b) p).0
        (handled i on_rx (message b) p).1 in
    subst (shown bytes) (peer-received_link bytes s.node.link r.valid size) (
      subst (λ b. shown b (peer n.link)) slot
        (event_handler_refines i on_rx n (received_link-IsValid bytes s.node.link r.valid size)
          r.loaded (subst (λ b. get_or b 0 0 < 256) (sym slot) byte)))

hears-IsReady :
    (i : Inputs) (bytes : List ℕ) (s : Station) (o : Option Message) (p : Peer)
    → IsReady s
    → length bytes ≡ 22
    → Shows (event_handler i on_rx (receive bytes s.node)) o p
    → IsReady (hears i bytes s)
hears-IsReady i bytes s o p r size h = record {
  valid =
      event_handler-IsValid i on_rx (receive bytes s.node)
        (received_link-IsValid bytes s.node.link r.valid size);
  loaded = h.loaded;
}

pub fills-Simulated :
    (a b : Station) (i x : ℕ) → IsReady a → IsReady b → Simulated (a, b) (fills i x a, b)
fills-Simulated a b i x ra rb = record {
  steps =
      subst
        (λ q.
          Reach (side a, side b)
            (record (side a) { peer = record (peer a.node.link) { queue = q } }, side b))
        (sym (tx_contents-write_main a.node.link i x ra.valid)) here;
  ready = (
    record {
      valid = write_main-IsValid a.node.link i x ra.valid;
      loaded = write_main-Loaded a.node.link i x ra.valid ra.loaded;
    },
    rb,
  );
}

pub sends_packet-Simulated :
    (a b : Station) (kind : ℕ)
    → kind < 16
    → 0 < byte_of a.node.link.tx_packet a.node.link.tx_main 1
    → byte_of a.node.link.tx_packet a.node.link.tx_main 1 < 255
    → tx_available a.node.link ≢ 0
    → IsReady a
    → IsReady b
    → Simulated (a, b) (sends_packet kind a, b)
unfolding tx_send_packet
sends_packet-Simulated a b kind hk lo hi free ra rb =
    let x = written kind (main_slot a.node.link) in
    record {
      steps =
          subst
            (λ q.
              Reach (side a, side b)
                (
                  record (side a) {
                    peer = record (peer a.node.link) { queue = q };
                    sent = a.sent ++ x ∷ [];
                  },
                  side b,
                ))
            (sym (tx_contents-tx_send_packet kind a.node ra.valid hk hi free))
            (next here (puts (side a) (side b) x));
      ready = (
        record {
          valid = (main_loop-IsValid 0 kind a.node ra.valid).1;
          loaded = tx_send_packet-Loaded kind a.node ra.valid lo hi free ra.loaded;
        },
        rb,
      );
    }

pub takes_packet-Simulated :
    (a b : Station)
    → a.node.link.rx_main ≢ a.node.link.rx_int
    → IsReady a
    → IsReady b
    → Simulated (a, b) (takes_packet a, b)
unfolding rx_done_with_packet
takes_packet-Simulated a b ne ra rb = record {
  steps = next here (
      takes (side a) (side b) (rx_payload (get_or a.node.link.rx_packet a.node.link.rx_main []))
        (rx_contents (rx_done_with_packet a.node.link))
        (rx_contents-rx_done_with_packet a.node.link ra.valid ne));
  ready = (record { valid = (main_loop-IsValid 0 0 a.node ra.valid).2; loaded = ra.loaded }, rb);
}

pub noise-Simulated :
    (a b : Station) (i : Inputs) (bytes : List ℕ)
    → length bytes ≡ 22
    → get_or bytes 0 0 < 256
    → i.crc_passed ≡ false
    → IsReady a
    → IsReady b
    → Simulated (a, b) (hears i bytes a, b)
noise-Simulated a b i bytes size byte wrong ra rb =
    let shown : Shows (event_handler i on_rx (receive bytes a.node)) none (peer a.node.link) =
      subst
        (λ c.
          let r =
            (if not c
              then (none, peer a.node.link)
              else answer (message bytes) (peer a.node.link)) in
          Shows (event_handler i on_rx (receive bytes a.node)) r.0 r.1)
        wrong (hears-Shows i bytes a ra size byte) in
    record {
      steps =
          subst (λ z. Reach (side a, side b) (z, side b))
            (sym (
              side-handles i on_rx (record a { node = receive bytes a.node }) none
                (peer a.node.link) shown))
            (next here (falls_silent (side a) (side b)));
      ready = (hears-IsReady i bytes a none (peer a.node.link) ra size shown, rb);
    }

pub reaching-Simulated :
    (a b : Station) (i : Inputs) (bytes : List ℕ)
    → length bytes ≡ 22
    → get_or bytes 0 0 < 256
    → i.crc_passed ≡ true
    → a.air ≡ some (message bytes)
    → IsReady a
    → IsReady b
    → Simulated (a, b) (record a { air = none }, hears i bytes b)
reaching-Simulated a b i bytes size byte right sent ra rb =
    let r = answer (message bytes) (peer b.node.link) in
    let shown : Shows (event_handler i on_rx (receive bytes b.node)) r.0 r.1 =
      subst
        (λ c.
          let r =
            (if not c
              then (none, peer b.node.link)
              else answer (message bytes) (peer b.node.link)) in
          Shows (event_handler i on_rx (receive bytes b.node)) r.0 r.1)
        right (hears-Shows i bytes b rb size byte) in
    record {
      steps =
          subst (λ z. Reach (side a, side b) (record (side a) { air = none }, z))
            (sym (side-handles i on_rx (record b { node = receive bytes b.node }) r.0 r.1 shown))
            (next here (is_heard (side a) (side b) (message bytes) sent));
      ready = (
        record { valid = ra.valid; loaded = ra.loaded },
        hears-IsReady i bytes b r.0 r.1 rb size shown,
      );
    }

pub Reach-other : {a b a' b' : Side} → Reach (a, b) (a', b') → Reach (b, a) (b', a')
Reach-other here = here
Reach-other (next r st) = next (Reach-other r) (other st)
