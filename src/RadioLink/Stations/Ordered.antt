-- ===== src/RadioLink/Stations/Ordered.antt =====
-- What two stations deliver, in any run.
use wixel_sdk.Base.{List, ◌++◌, none}
use wixel_sdk.RadioMac.{on_tx, on_rx_timeout, on_strobe}
use wixel_sdk.RadioLink.Peer.{Payload, rx_contents, initiative, peer}
use wixel_sdk.RadioLink.Sends.{take_initiative-Shows, listen-Shows}
use wixel_sdk.RadioLink.World.{Side, Reach, here, next, wakes, falls_silent}
use wixel_sdk.RadioLink.Delivery.Reliable.{IsConnected, IsPrefix, delivers_in_order}
use wixel_sdk.RadioLink.Handler.{event_handler}
use wixel_sdk.RadioLink.Stations.{
  Station, side, StationStep, filling, sending, taking, waking, timing_out, ending, hearing_noise,
  reaching, other_way, Runs, start, onward,
}
use wixel_sdk.RadioLink.Stations.Simulation.{
  IsReady, Simulated, event-Simulated, fills-Simulated, sends_packet-Simulated,
  takes_packet-Simulated, noise-Simulated, reaching-Simulated, Reach-other,
}

step-Simulated :
    {w v : Station × Station} → StationStep w v → IsReady w.0 → IsReady w.1 → Simulated w v
unfolding event_handler
step-Simulated (filling a b i x) ra rb = fills-Simulated a b i x ra rb
step-Simulated (sending a b kind hk lo hi free) ra rb =
    sends_packet-Simulated a b kind hk lo hi free ra rb
step-Simulated (taking a b ne) ra rb = takes_packet-Simulated a b ne ra rb
step-Simulated (waking a b i) ra rb =
    event-Simulated a b i on_strobe (initiative (peer a.node.link)) ra rb
      (take_initiative-Shows a.node ra.valid ra.loaded) (wakes (side a) (side b))
step-Simulated (timing_out a b i) ra rb =
    event-Simulated a b i on_rx_timeout (initiative (peer a.node.link)) ra rb
      (take_initiative-Shows a.node ra.valid ra.loaded) (wakes (side a) (side b))
step-Simulated (ending a b i) ra rb =
    event-Simulated a b i on_tx none ra rb (listen-Shows a.node ra.valid ra.loaded _)
      (falls_silent (side a) (side b))
step-Simulated (hearing_noise a b i bytes size byte wrong) ra rb =
    noise-Simulated a b i bytes size byte wrong ra rb
step-Simulated (reaching a b i bytes size byte right sent) ra rb =
    reaching-Simulated a b i bytes size byte right sent ra rb
step-Simulated (other_way st) ra rb =
    let r = step-Simulated st rb ra in
    record { steps = Reach-other r.steps; ready = (r.ready.1, r.ready.0) }

Reach-trans : {u v w : Side × Side} → Reach u v → Reach v w → Reach u w
Reach-trans r here = r
Reach-trans r (next q st) = next (Reach-trans r q) st

-- Every run of two ready stations is a run of the protocol, and leaves them ready.
pub Runs-Simulated :
    {w v : Station × Station} → IsReady w.0 → IsReady w.1 → Runs w v → Simulated w v
Runs-Simulated ra rb start = record { steps = here; ready = (ra, rb) }
Runs-Simulated ra rb (onward r st) =
    let h = Runs-Simulated ra rb r in
    let k = step-Simulated st h.ready.0 h.ready.1 in
    record { steps = Reach-trans h.steps k.steps; ready = k.ready }

-- What a station has received: taken out by the main loop, or waiting in the receive buffers.
abbrev pub received_by : Station → List Payload
received_by s = s.taken ++ rx_contents s.node.link

-- Two stations with valid links, that have ended their resets, with nothing on the air: after any
-- packets sent, lost, garbled, repeated and acknowledged, what each has received is the start of what
-- the other's main loop has sent.
pub stations_deliver_in_order :
    (a b : Station) (v : Station × Station)
    → IsReady a
    → IsReady b
    → IsConnected (side a) (side b)
    → IsConnected (side b) (side a)
    → Runs (a, b) v
    → IsPrefix (received_by v.1) v.0.sent × IsPrefix (received_by v.0) v.1.sent
stations_deliver_in_order a b v ra rb to from r =
    delivers_in_order (side a) (side b) (side v.0, side v.1) to from (Runs-Simulated ra rb r).steps
