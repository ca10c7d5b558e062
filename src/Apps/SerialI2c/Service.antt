-- ===== src/Apps/SerialI2c/Service.antt =====
-- `i2cService` over any serial interface: its invariant, and what a command timeout leaves of the command.
use wixel_sdk.Base.{
  ℕ, ◌+◌, ◌-◌, ◌^◌, ◌%◌, ◌<◌, ◌≡◌, ◌≢◌, refl, sym, subst, ◌∙◌, Bool, true, false, ◌&&◌, Option,
  none, some, arith, if_both, if_cases, ltb, ◌==◌, bit_and,
}
use wixel_sdk.I2c.{I2c, Readings, stop, write_byte}
use wixel_sdk.I2c.Bus.{OnSome, OnSome-elim}
use wixel_sdk.Apps.{Serial}
use wixel_sdk.Apps.SerialI2c.{
  Bridge, State, idle, get_addr, get_len, get_data, cmd_start, err_cmd_timeout,
  err_i2c_nack_address, err_i2c_nack_data, flag, with_i2c, note_write, counted_down, parse_in,
  parse_cmd, is_get_data, beside, stamp, give_up, no_byte, on_rx, work, reply, replied, service,
}
use wixel_sdk.Apps.SerialI2c.Commands.{
  IsValid, flag-IsValid, with_i2c-IsValid, parse_cmd-IsValid, i2c_read-IsValid,
}

stamp-IsValid : (now : ℕ) (o : Option Bridge) → OnSome IsValid o → OnSome IsValid (stamp now o)
stamp-IsValid now none h = tt
stamp-IsValid now (some b) h = record {
  errors = h.errors;
  response = h.response;
  length = h.length;
  counts = h.counts;
}

no_byte-IsValid :
    (timeout_ms now : ℕ) (r : Readings) (b : Bridge)
    → IsValid b
    → OnSome IsValid (no_byte timeout_ms now r b)
unfolding give_up
no_byte-IsValid ms now r b h =
    if_both {A = Option Bridge}
      {x = with_i2c (flag err_cmd_timeout (record b { started = false })) (stop r b.i2c)}
      {y = some b} (OnSome IsValid)
      (b.started && ltb 0 ms && ltb ms ((now + 2 ^ 16 - b.last_cmd) % 2 ^ 16))
      (with_i2c-IsValid (flag err_cmd_timeout (record b { started = false })) (stop r b.i2c) (
        flag-IsValid err_cmd_timeout (record b { started = false }) (omega arith)
          (record {
            errors = h.errors;
            response = h.response;
            length = h.length;
            counts = h.counts;
          })))
      h

-- A command that is over for the timeout only
abbrev Stale : State → Bridge → Type 0
Stale st b = (b.state ≡ st) × (b.started ≡ false) × (b.return_response ≡ false)

with_i2c-Stale :
    (st : State) (b : Bridge) (o : Option I2c) → Stale st b → OnSome (Stale st) (with_i2c b o)
with_i2c-Stale st b none h = tt
with_i2c-Stale st b (some s) h = h

no_byte-Stale :
    (timeout_ms now : ℕ) (r : Readings) (b : Bridge)
    → b.started ≡ true
    → b.return_response ≡ false
    → 0 < timeout_ms
    → timeout_ms < (now + 2 ^ 16 - b.last_cmd) % 2 ^ 16
    → OnSome (Stale b.state) (no_byte timeout_ms now r b)
unfolding give_up
no_byte-Stale ms now r b st quiet pos late =
    if_cases (OnSome (Stale b.state))
      (b.started && ltb 0 ms && ltb ms ((now + 2 ^ 16 - b.last_cmd) % 2 ^ 16))
      (with_i2c (flag err_cmd_timeout (record b { started = false })) (stop r b.i2c)) (some b)
      (λ c.
        with_i2c-Stale b.state (flag err_cmd_timeout (record b { started = false })) (stop r b.i2c)
          (refl, refl, quiet))
      (λ c. absurd (ground (arith, c, st, pos, late)))

-- A byte taken for an address, a length or data starts nothing.
Unstarted : Bridge → Type 0
Unstarted b = b.started ≡ false

note_write-Unstarted :
    (k : ℕ) (b : Bridge) (o : Option (Bool × I2c))
    → Unstarted b
    → OnSome Unstarted (note_write k b o)
unfolding Unstarted
note_write-Unstarted k b none h = tt
note_write-Unstarted k b (some (nack, s)) h =
    if_both {A = Bridge} Unstarted s.timeout_occurred h (if_both {A = Bridge} Unstarted nack h h)

counted_down-Unstarted :
    (o : Option Bridge) → OnSome Unstarted o → OnSome Unstarted (counted_down o)
unfolding Unstarted
counted_down-Unstarted none h = tt
counted_down-Unstarted (some b) h = h

parse_in-Unstarted :
    (st : State) (byte : ℕ) (env : ℕ → Readings) (b : Bridge)
    → st ≢ idle
    → Unstarted b
    → OnSome Unstarted (parse_in st byte env b)
unfolding parse_in Unstarted
parse_in-Unstarted idle byte env b n h = absurd (n refl)
parse_in-Unstarted get_addr byte env b n h =
    note_write-Unstarted err_i2c_nack_address
      (record b { dir_is_read = bit_and byte 1 == 1; state = get_len }) _ h
parse_in-Unstarted get_len byte env b n h = h
parse_in-Unstarted get_data byte env b n h =
    if_both {A = Option Bridge} (OnSome Unstarted) b.dir_is_read h (
      counted_down-Unstarted _
        (note_write-Unstarted err_i2c_nack_data b (write_byte byte env b.i2c) h))

module _ {S : Type 0} (port : Serial S) (timeout_ms : ℕ) where
  abbrev pub Keeps : Bridge × S → Type 0
  Keeps (b, s) = IsValid b

  beside-Keeps : (s : S) (o : Option Bridge) → OnSome IsValid o → OnSome Keeps (beside s o)
  beside-Keeps s none h = tt
  beside-Keeps s (some b) h = h

  on_rx-Keeps :
      (now : ℕ) (env : ℕ → Readings) (b : Bridge) (o : Option (ℕ × S))
      → ((s : S) → (port.rx_receive_byte s).0 < 256)
      → IsValid b
      → OnSome Keeps (on_rx port timeout_ms now env b o)
  on_rx-Keeps now env b none bytes h = tt
  on_rx-Keeps now env b (some (n, s)) bytes h =
      if_both (OnSome Keeps) (ltb 0 n)
        (beside-Keeps _ _ (stamp-IsValid now _ (parse_cmd-IsValid _ env b (bytes s) h)))
        (beside-Keeps s _ (no_byte-IsValid timeout_ms now (env 0) b h))

  reply-Keeps : (r : Bridge × S) → Keeps r → Keeps (reply port r)
  reply-Keeps (b, s) h =
      if_both Keeps b.return_response
        (if_both Keeps (ltb 0 (port.tx_available s).0)
          (record {
            errors = h.errors;
            response = h.response;
            length = h.length;
            counts = h.counts;
          })
          h)
        h

  replied-Keeps : (o : Option (Bridge × S)) → OnSome Keeps o → OnSome Keeps (replied port o)
  replied-Keeps none h = tt
  replied-Keeps (some r) h = reply-Keeps r h

  -- On a serial interface that gives bytes, every call of i2cService that returns keeps the machine
  -- valid: the error flags, the response and the length are bytes, and a byte is left to transfer exactly
  -- in the state GET_DATA.
  pub service-IsValid :
      (now : ℕ) (env : ℕ → Readings) (b b' : Bridge) (s s' : S)
      → ((s : S) → (port.rx_receive_byte s).0 < 256)
      → IsValid b
      → service port timeout_ms now env b s ≡ some (b', s')
      → IsValid b'
  unfolding service work
  service-IsValid now env b b' s s' bytes h e =
      let done : OnSome Keeps (work port timeout_ms now env b s) =
        if_both (OnSome Keeps) b.return_response h (
          if_cases (OnSome Keeps) (b.dir_is_read && is_get_data b.state) _ _
            (λ g. beside-Keeps s _ (i2c_read-IsValid env b (ground (arith, g)) h))
            (λ g. on_rx-Keeps now env b (port.rx_available s) bytes h)) in
      OnSome-elim Keeps {a = (b', s')} (replied-Keeps _ done) e

  abbrev StaleAt : State → Bridge × S → Type 0
  StaleAt st (b, s) = Stale st b

  beside-StaleAt :
      (st : State) (s : S) (o : Option Bridge)
      → OnSome (Stale st) o
      → OnSome (StaleAt st) (beside s o)
  beside-StaleAt st s none h = tt
  beside-StaleAt st s (some b) h = h

  replied-StaleAt :
      (st : State) (o : Option (Bridge × S))
      → OnSome (StaleAt st) o
      → OnSome (StaleAt st) (replied port o)
  replied-StaleAt st none h = tt
  replied-StaleAt st (some (b, s)) h =
      if_cases (StaleAt st) b.return_response _ (b, s) (λ c. absurd (ground (arith, h.2, c)))
        (λ c. h)

  -- A timeout of the command leaves the state, so that the next byte, which begins a new command, is taken as
  -- the address, the length or the data of the old one: nothing is started by it. The timeout is over, no
  -- byte has arrived, no response waits, and a command has begun but is not a read of data.
  pub service-stale_command :
      (now : ℕ) (env env' : ℕ → Readings) (b b' b'' : Bridge) (s t s' : S)
      → b.state ≢ idle
      → b.started ≡ true
      → b.dir_is_read ≡ false
      → b.return_response ≡ false
      → port.rx_available s ≡ some (0, t)
      → 0 < timeout_ms
      → timeout_ms < (now + 2 ^ 16 - b.last_cmd) % 2 ^ 16
      → service port timeout_ms now env b s ≡ some (b', s')
      → parse_cmd cmd_start env' b' ≡ some b''
      → (b'.state ≡ b.state) × (b'.started ≡ false) × (b''.started ≡ false)
  unfolding service work Unstarted
  service-stale_command now env env' b b' b'' s t s' busy st dir quiet none_there pos late e e' =
      let worked : OnSome (StaleAt b.state) (work port timeout_ms now env b s) =
        if_cases (OnSome (StaleAt b.state)) b.return_response _ _
          (λ c. absurd (ground (arith, c, quiet)))
          (λ c.
            if_cases (OnSome (StaleAt b.state)) (b.dir_is_read && is_get_data b.state) _ _
              (λ g. absurd (ground (arith, g, dir)))
              (λ g.
                subst (λ o. OnSome (StaleAt b.state) (on_rx port timeout_ms now env b o))
                  (sym none_there)
                  (beside-StaleAt b.state t _
                    (no_byte-Stale timeout_ms now (env 0) b st quiet pos late)))) in
      let h = OnSome-elim (StaleAt b.state) {a = (b', s')} (replied-StaleAt b.state _ worked) e in
      (
        h.0,
        h.1,
        OnSome-elim Unstarted {a = b''}
            (parse_in-Unstarted b'.state cmd_start env' b' (λ i. busy (sym h.0 ∙ i)) h.1) e',
      )
