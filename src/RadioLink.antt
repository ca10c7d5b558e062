-- ===== src/RadioLink.antt =====
-- libraries/src/radio_link/radio_link.c: reliable, ordered delivery of packets by acknowledgements,
-- retries and a one-bit sequence number. The variables are `Link`; the radio below is `Mac` of
-- RadioMac. `randomNumber` and `radioCrcPassed` are inputs of the interrupt handler, and the readings
-- of MARCSTATE are an input of `radioLinkChangeChannel`.
pub mod Defs
pub mod Handler
pub mod Bounds
pub mod Peer
pub mod Refine
pub mod Sends
pub mod Takes
pub mod Receives
pub mod Outbox
pub mod Client
pub mod World
pub mod Delivery
pub mod Stations
