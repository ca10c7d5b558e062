-- ===== src/RadioLink/World.antt =====
-- Two peers of radio_link.c over a medium that loses messages: the world that the protocol of
-- RadioLink/Peer runs in, and its steps.
use wixel_sdk.Base.{List, [], ◌∷◌, ◌++◌, Option, none, some, ◌≡◌}
use wixel_sdk.RadioLink.Peer.{Payload, Message, Peer, initiative, answer}

-- A peer, the message it is sending, what its main loop has sent, and what it has taken out.
pub record Side : Type 0 where
  pub peer : Peer
  pub air : Option Message
  pub sent : List Payload
  pub taken : List Payload

abbrev pub answers : Message → Side → Side
answers m s = record s { air = (answer m s.peer).0; peer = (answer m s.peer).1 }

-- One side acts: its main loop sends or takes a packet, it takes the initiative, it stops sending
-- with nothing heard, or what it sends is heard and answered. `other` is the same for the other side.
pub data Step : Side × Side → Side × Side → Type 0 where
  puts :
      (a b : Side) (x : Payload)
      → Step
          (a, b)
          (
            record a {
              peer = record (a.peer) { queue = a.peer.queue ++ x ∷ [] };
              sent = a.sent ++ x ∷ [];
            },
            b,
          )
  takes :
      (a b : Side) (x : Payload) (rest : List Payload)
      → a.peer.inbox ≡ x ∷ rest
      → Step
          (a, b)
          (record a { peer = record (a.peer) { inbox = rest }; taken = a.taken ++ x ∷ [] }, b)
  wakes : (a b : Side) → Step (a, b) (record a { air = initiative a.peer }, b)
  falls_silent : (a b : Side) → Step (a, b) (record a { air = none }, b)
  is_heard :
      (a b : Side) (m : Message)
      → a.air ≡ some m
      → Step (a, b) (record a { air = none }, answers m b)
  other : {a b a' b' : Side} → Step (a, b) (a', b') → Step (b, a) (b', a')

pub data Reach (w : Side × Side) : Side × Side → Type 0 where
  here : Reach w w
  next : {v u : Side × Side} → Reach w v → Step v u → Reach w u
