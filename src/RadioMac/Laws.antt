-- ===== src/RadioMac/Laws.antt =====
-- What radio_mac.c promises of every client: after an event the radio runs again in the state the
-- client chose, and a strobe that is still pending has disturbed nothing.
use wixel_sdk.Base.{
  ℕ, ◌≡◌, refl, sym, ap, ◌∙◌, if◌then◌else◌, ◌⊎◌, true, false, List, ◌∷◌, arith, inl, inr, if_both,
}
use wixel_sdk.RadioMac.{
  Mac, Event, Readings, off, idle, rx, tx, srx, stx, quiet, start, radio_mac_event, done_part,
  timeout_part, busy, report_errors, strobe_part, finish_part, rf_isr, Command,
}

-- The radio runs in its state: DMA armed and the last command the one that enters the state.
pub record IsRunning {P : Type 0} (m : Mac P) : Type 0 where
  pub armed : m.dma_armed ≡ true
  pub commanded :
      ((m.state ≡ rx) × (cs : List Command) × (m.commands ≡ srx ∷ cs))
      ⊎ ((m.state ≡ tx) × (cs : List Command) × (m.commands ≡ stx ∷ cs))

-- What the `switch` of `radioMacEvent` does in the two states that a client can choose.
start_runs :
    {P : Type 0} (m : Mac P)
    → (m.state ≡ rx) ⊎ (m.state ≡ tx)
    → IsRunning (start m)
      × ((start m).state ≡ m.state)
      × ((start m).irq_done ≡ m.irq_done)
      × ((start m).irq_timeout ≡ m.irq_timeout)
unfolding start
start_runs m (inl e) =
    rw (e, start) (record { armed = refl; commanded = inl (e, m.commands, refl) }, e, refl, refl)
start_runs m (inr e) =
    rw (e, start) (record { armed = refl; commanded = inr (e, m.commands, refl) }, e, refl, refl)

module _ {S P : Type 0} (handler : Event → S → Mac P → S × Mac P) where
  -- A client leaves the radio receiving or transmitting.
  abbrev pub Decides : Type 0
  Decides =
      (e : Event) (s : S) (m : Mac P)
      → m.state ≡ rx
      → ((handler e s m).1.state ≡ rx) ⊎ ((handler e s m).1.state ≡ tx)

  -- After `radioMacEvent` the radio runs in the state that the client left, the interrupt flags of
  -- the events are clear and no strobe is pending.
  pub radio_mac_event_restarts :
      (e : Event) (k : ℕ) (s : S) (m : Mac P)
      → Decides
      → let m' = (radio_mac_event handler e k s m).1 in
        IsRunning m'
        × (m'.state ≡ (handler e s (quiet k m)).1.state)
        × (m'.irq_done ≡ false)
        × (m'.irq_timeout ≡ false)
        × (m'.strobe ≡ false)
  unfolding radio_mac_event start quiet
  radio_mac_event_restarts e k s m d =
      let decided : Mac P = (handler e s (quiet k m)).1 in
      let runs =
        start_runs (record decided { irq_done = false; irq_timeout = false })
          (d e s (quiet k m) refl) in
      (record { armed = runs.0.armed; commanded = runs.0.commanded }, runs.1, runs.2, runs.3, refl)

  strobe-radio_mac_event :
      (e : Event) (k : ℕ) (s : S) (m : Mac P) → (radio_mac_event handler e k s m).1.strobe ≡ false
  unfolding radio_mac_event
  strobe-radio_mac_event e k s m = refl

  -- A part of the interrupt routine either runs an event, which clears the strobe, or does nothing.
  abbrev Ran : S → Mac P → S × Mac P → Type 0
  Ran s m r = (r.1.strobe ≡ false) ⊎ (r ≡ (s, m))

  done_part-Ran : (r : Readings) (s : S) (m : Mac P) → Ran s m (done_part handler r s m)
  unfolding done_part
  done_part-Ran r s m =
      elim m.state
        as (λ st. Ran s m (elim st [
          | tx ↦ radio_mac_event handler Event.on_tx r.done_marcstate s m
          | rx ↦ radio_mac_event handler Event.on_rx r.done_marcstate s m
          | _ ↦ (s, m)
        ])) [
          | tx ↦ inl (strobe-radio_mac_event _ _ s m)
          | rx ↦ inl (strobe-radio_mac_event _ _ s m)
          | off ↦ inr refl
          | idle ↦ inr refl
        ]

  timeout_part-Ran : (r : Readings) (s : S) (m : Mac P) → Ran s m (timeout_part handler r s m)
  unfolding timeout_part
  timeout_part-Ran r s m =
      if_both (Ran s m) m.irq_timeout (inl (strobe-radio_mac_event _ _ s m)) (inr refl)

  strobe-strobe_part :
      (r : Readings) (s : S) (m : Mac P) → (strobe_part handler r s m).1.strobe ≡ false
  unfolding strobe_part
  strobe-strobe_part r s m = strobe-radio_mac_event _ _ s _

  -- When a strobe may have to wait: a packet is going out, or the radio is receiving.
  busy_state :
      (r : Readings) (m : Mac P) → busy handler r m ≡ true → (m.state ≡ tx) ⊎ (m.state ≡ rx)
  unfolding busy
  busy_state r m h = ground arith

  finish_part_waits :
      (r : Readings) (s : S) (m : Mac P)
      → (finish_part handler r s m).1.strobe ≡ true
      → (m.strobe ≡ true) × (busy handler r m ≡ true) × (finish_part handler r s m ≡ (s, m))
  unfolding finish_part report_errors
  finish_part_waits r s m h = ground (arith, strobe-strobe_part r s m)

  -- A strobe survives a part that leaves it set only if the part did nothing.
  pending_after : {s : S} {m : Mac P} {r : S × Mac P} → Ran s m r → r.1.strobe ≡ true → r ≡ (s, m)
  pending_after (inl e) h = absurd (cc)
  pending_after (inr e) h = e

  -- If a strobe is still pending after the interrupt routine, then it was pending before, a packet
  -- is being sent or the radio is receiving, the client has not been called, and the routine has
  -- changed nothing but the interrupt flag register S1CON.
  pub rf_isr_waits :
      (r : Readings) (s : S) (m : Mac P)
      → (rf_isr handler r s m).1.strobe ≡ true
      → (m.strobe ≡ true)
        × ((m.state ≡ tx) ⊎ (m.state ≡ rx))
        × (rf_isr handler r s m ≡ (s, record m { s1con = 0 }))
  unfolding rf_isr
  rf_isr_waits r s m h = (
    ap (λ x. x.1.strobe) (sym p2) ∙ w.0,
    busy_state r (record m { s1con = 0 }) (ap (λ x. busy handler r x.1) (sym p2) ∙ w.1),
    w.2 ∙ p2,
  )
    where
      m0 : Mac P
      m0 = record m { s1con = 0 }

      after_done : S × Mac P
      after_done = if m0.irq_done then done_part handler r s m0 else (s, m0)

      after_timeout : S × Mac P
      after_timeout = timeout_part handler r after_done.0 after_done.1

      w :
          (after_timeout.1.strobe ≡ true)
          × (busy handler r after_timeout.1 ≡ true)
          × (finish_part handler r after_timeout.0 after_timeout.1 ≡ after_timeout)
      w = finish_part_waits r after_timeout.0 after_timeout.1 h

      q2 : after_timeout ≡ after_done
      q2 = pending_after (timeout_part-Ran r after_done.0 after_done.1) w.0

      q1 : after_done ≡ (s, m0)
      q1 =
          pending_after (if_both (Ran s m0) m0.irq_done (done_part-Ran r s m0) (inr refl))
            (ap (λ x. x.1.strobe) (sym q2) ∙ w.0)

      p2 : after_timeout ≡ (s, m0)
      p2 = q2 ∙ q1
