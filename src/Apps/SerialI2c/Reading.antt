-- ===== src/Apps/SerialI2c/Reading.antt =====
-- The data of a read command: `i2cService` call by call, over a serial interface with a buffer.
use wixel_sdk.Base.{
  ℕ, zero, suc, ◌+◌, ◌≤◌, ◌<◌, ◌≡◌, ◌≢◌, refl, sym, ap, subst, ◌∙◌, ◌⊎◌, inl, inr, Bool, false,
  ◌&&◌, List, [], ◌∷◌, ◌++◌, Option, none, some, arith, All, length, length-append, append_assoc,
  append-nil, if_cases, ◌==◌, ltb,
}
use wixel_sdk.I2c.{Readings, read_byte}
use wixel_sdk.I2c.Bus.{Signal, clocked, OnSome, OnSome-elim, low, bus}
use wixel_sdk.I2c.Bytes.{clock_out, bits_of}
use wixel_sdk.I2c.Reading.{shown, released}
use wixel_sdk.Apps.{Serial}
use wixel_sdk.Apps.SerialI2c.{
  Bridge, idle, i2c_read, is_get_data, beside, work, reply, replied, service,
}
use wixel_sdk.Apps.SerialI2c.Responses.{
  is_last, read_frames, read_sda, Shows, Reads, Outcome, Responds, note_read-Responds,
}

-- The sending side of a serial interface: `sent` is what it has been given to send. Asking for room changes
-- nothing that matters here, and a byte that is sent where there is room goes to the end and takes up one place
-- at most.
pub record Sends {S : Type 0} (port : Serial S) : Type 1 where
  pub IsValid : S → Type 0
  pub sent : S → List ℕ
  pub asks :
      (s : S)
      → IsValid s
      → let (n, t) = port.tx_available s in
        IsValid t × (sent t ≡ sent s) × ((port.tx_available t).0 ≡ n)
  pub sends :
      (byte : ℕ) (s : S)
      → IsValid s
      → 0 < (port.tx_available s).0
      → let t = port.tx_send_byte byte s in
        IsValid t
        × (sent t ≡ sent s ++ byte ∷ [])
        × ((port.tx_available s).0 ≤ (port.tx_available t).0 + 1)

abbrev pub then_serve :
    {S : Type 0} → (Bridge → S → Option (Bridge × S)) → Option (Bridge × S) → Option (Bridge × S)
then_serve more none = none
then_serve more (some (b, s)) = more b s

-- `rounds` calls of i2cService; the i-th reads the clock `now i` and the pins `env i`.
module _ {S : Type 0} (port : Serial S) (timeout_ms : ℕ) (now : ℕ → ℕ)
    (env : ℕ → ℕ → Readings) where
  unfoldable pub services : ℕ → ℕ → Bridge → S → Option (Bridge × S)
  unfolding service
  services zero i b s = some (b, s)
  services (suc rounds) i b s =
      then_serve (services rounds (i + 1)) (service port timeout_ms (now i) (env i) b s)

module _ {S : Type 0} (port : Serial S) (laws : Sends port) (timeout_ms : ℕ) where
  abbrev sent : S → List ℕ
  sent = laws.sent

  -- There is room for a response to each of `n` bytes.
  abbrev pub HasRoom : ℕ → S → Type 0
  HasRoom n s = laws.IsValid s × (n ≤ (port.tx_available s).0)

  -- `n` bytes are left; `m` have been sent since the start, which had sent `before`: they are `out`,
  -- and the bus is low with these signals, unless an error is flagged.
  record Sent (n m : ℕ) (out : List ℕ) (d : Bool) (sigs : List Signal) (r : Bridge × S)
      : Type 0 where
    reading : Reads n r.0
    quiet : r.0.return_response ≡ false
    room : HasRoom n r.1
    count : length (sent r.1) ≡ m
    outcome : (r.0.errors ≢ 0) ⊎ ((sent r.1 ≡ out) × (bus r.0.i2c.calls ≡ low d sigs))

  reply-Sent :
      (x n m : ℕ) (out : List ℕ) (d : Bool) (sigs : List Signal) (b : Bridge) (s : S)
      → Responds (sent s ≡ out) n x d sigs b
      → length (sent s) ≡ m
      → HasRoom (suc n) s
      → Sent n (m + 1) (out ++ x ∷ []) d sigs (reply port (b, s))
  reply-Sent x n m out d sigs b s (h, waits, shows) count (valid, room) =
      let s' = (port.tx_available s).1 in
      let P = Sent n (m + 1) (out ++ x ∷ []) d sigs in
      let asked = laws.asks s valid in
      let given = laws.sends b.response s' asked.0 (omega (arith, asked.2, room)) in
      let goes : sent (port.tx_send_byte b.response s') ≡ sent s ++ b.response ∷ [] =
        given.1 ∙ ap (λ t. t ++ b.response ∷ []) asked.1 in
      if_cases P b.return_response _ (b, s)
        (λ c.
          if_cases P (ltb 0 (port.tx_available s).0)
            (record b { return_response = false }, port.tx_send_byte b.response s') (b, s')
            (λ free. record {
              reading = record {
                state = h.state;
                length = h.length;
                reads = h.reads;
                errors = h.errors;
              };
              quiet = refl;
              room = (given.0, omega (arith, given.2, asked.2, room));
              count =
                  ap length goes ∙ length-append (sent s) (b.response ∷ []) ∙ ap (λ m. m + 1) count;
              outcome = both goes shows;
            })
            (λ full. absurd (ground (arith, full, room))))
        (λ c. absurd (ground (arith, c, waits)))
    where
      both :
          sent (port.tx_send_byte b.response (port.tx_available s).1) ≡ sent s ++ b.response ∷ []
          → Outcome (sent s ≡ out) x d sigs b
          → (b.errors ≢ 0)
            ⊎ ((sent (port.tx_send_byte b.response (port.tx_available s).1) ≡ out ++ x ∷ [])
                × (bus b.i2c.calls ≡ low d sigs))
      both goes (inl bad) = inl bad
      both goes (inr (had, same, line)) =
          inr (goes ∙ ap (λ t. t ++ b.response ∷ []) had ∙ ap (λ y. out ++ y ∷ []) same, line)

  -- One call of i2cService while data is read
  service-Sent :
      (x : ℕ) (xs out : List ℕ) (m now : ℕ) (env : ℕ → Readings) (d : Bool) (sigs : List Signal)
      (b : Bridge) (s : S)
      → x < 256
      → suc (length xs) < 256
      → shown 8 0 env ≡ bits_of x
      → Sent (suc (length xs)) m out d sigs (b, s)
      → OnSome
          (Sent
            (length xs)
            (m + 1)
            (out ++ x ∷ [])
            (is_last xs)
            (clocked (is_last xs) ∷ clock_out (released 8) sigs))
          (service port timeout_ms now env b s)
  unfolding service work i2c_read
  service-Sent x xs out m now env d sigs b s hx hn shows h =
      let after : Bool → List Signal = λ c. clocked c ∷ clock_out (released 8) sigs in
      let P : Bool → Bridge × S → Type 0 =
        λ c. Sent (length xs) (m + 1) (out ++ x ∷ []) c (after c) in
      let last : (b.data_length == 1) ≡ is_last xs = ground (arith, h.reading.length) in
      subst (λ c. OnSome (P c) (service port timeout_ms now env b s)) last
        (if_cases (λ o. OnSome (P (b.data_length == 1)) (replied port o)) b.return_response _ _
          (λ c. absurd (ground (arith, c, h.quiet)))
          (λ c.
            if_cases (λ o. OnSome (P (b.data_length == 1)) (replied port o))
              (b.dir_is_read && is_get_data b.state) (beside s (i2c_read env b)) _
              (λ g. sent_on (i2c_read env b) (
                note_read-Responds (sent s ≡ out) x (length xs) env d sigs b
                  (read_byte (b.data_length == 1) env b.i2c) hx hn shows h.reading h.outcome refl))
              (λ g. absurd (ground (arith, g, h.reading.reads, ap is_get_data h.reading.state)))))
    where
      sent_on :
          (o : Option Bridge)
          → OnSome
              (Responds
                (sent s ≡ out)
                (length xs)
                x
                (b.data_length == 1)
                (clocked (b.data_length == 1) ∷ clock_out (released 8) sigs))
              o
          → OnSome
              (Sent
                (length xs)
                (m + 1)
                (out ++ x ∷ [])
                (b.data_length == 1)
                (clocked (b.data_length == 1) ∷ clock_out (released 8) sigs))
              (replied port (beside s o))
      sent_on none r = tt
      sent_on (some b') r = reply-Sent x (length xs) m out _ _ b' s r h.count h.room

  then_serve-OnSome :
      (P Q : Bridge × S → Type 0) (more : Bridge → S → Option (Bridge × S))
      (o : Option (Bridge × S))
      → OnSome P o
      → ((b : Bridge) (s : S) → P (b, s) → OnSome Q (more b s))
      → OnSome Q (then_serve more o)
  then_serve-OnSome P Q more none h k = tt
  then_serve-OnSome P Q more (some (b, s)) h k = k b s h

  services-Sent :
      (xs out : List ℕ) (i m : ℕ) (now : ℕ → ℕ) (env : ℕ → ℕ → Readings) (d : Bool)
      (sigs : List Signal) (b : Bridge) (s : S)
      → All (λ x. x < 256) xs
      → length xs < 256
      → Shows xs i env
      → Sent (length xs) m out d sigs (b, s)
      → OnSome
          (Sent 0 (m + length xs) (out ++ xs) (read_sda xs d) (read_frames xs sigs))
          (services port timeout_ms now env (length xs) i b s)
  unfolding services
  services-Sent [] out i m now env d sigs b s hs hn shows h =
      subst (λ t. Sent 0 (m + 0) t d sigs (b, s)) (sym (append-nil out))
        (subst (λ n. Sent 0 n out d sigs (b, s)) {x = m} {y = m + 0} (omega arith) h)
  services-Sent (x ∷ xs) out i m now env d sigs b s hs hn shows h =
      let after = clocked (is_last xs) ∷ clock_out (released 8) sigs in
      let Ends : Bridge × S → Type 0 =
        Sent 0 (m + suc (length xs)) (out ++ x ∷ xs) (read_sda xs (is_last xs))
          (read_frames xs after) in
      then_serve-OnSome (Sent (length xs) (m + 1) (out ++ x ∷ []) (is_last xs) after) Ends
        (services port timeout_ms now env (length xs) (i + 1))
        (service port timeout_ms (now i) (env i) b s)
        (service-Sent x xs out m (now i) (env i) d sigs b s hs.0 hn shows.0 h)
        (λ b s h.
          subst
            (λ t.
              OnSome
                (Sent 0 (m + suc (length xs)) t (read_sda xs (is_last xs)) (read_frames xs after))
                (services port timeout_ms now env (length xs) (i + 1) b s))
            (append_assoc out (x ∷ []) xs)
            (subst
              (λ n.
                OnSome
                  (Sent 0 n ((out ++ x ∷ []) ++ xs) (read_sda xs (is_last xs))
                    (read_frames xs after))
                  (services port timeout_ms now env (length xs) (i + 1) b s))
              {x = m + 1 + length xs} {y = m + suc (length xs)} (omega arith)
              (services-Sent xs (out ++ x ∷ []) (i + 1) (m + 1) now env (is_last xs) after b s hs.1
                (omega (arith, hn)) shows.1 h)))

  -- A read command of n bytes: n calls of i2cService send n responses, and leave the machine idle. If no error
  -- is flagged then, the responses are the bytes that the slave has shown, in order, and the bus has
  -- seen the master's bit after each: 0, or 1 after the last. At the start the serial interface reports room
  -- for n bytes.
  pub read_command_lem :
      (xs : List ℕ) (now : ℕ → ℕ) (env : ℕ → ℕ → Readings) (d : Bool) (sigs : List Signal)
      (b b' : Bridge) (s s' : S)
      → All (λ x. x < 256) xs
      → length xs < 256
      → Shows xs 0 env
      → Reads (length xs) b
      → b.return_response ≡ false
      → bus b.i2c.calls ≡ low d sigs
      → HasRoom (length xs) s
      → services port timeout_ms now env (length xs) 0 b s ≡ some (b', s')
      → (b'.state ≡ idle)
        × (length (laws.sent s') ≡ length (laws.sent s) + length xs)
        × ((b'.errors ≢ 0)
            ⊎ ((laws.sent s' ≡ laws.sent s ++ xs)
                × (bus b'.i2c.calls ≡ low (read_sda xs d) (read_frames xs sigs))))
  read_command_lem xs now env d sigs b b' s s' hs hn shows reading quiet line room e =
      let h =
        OnSome-elim
          (Sent 0 (length (sent s) + length xs) (sent s ++ xs) (read_sda xs d)
            (read_frames xs sigs))
          {a = (b', s')}
          (services-Sent xs (sent s) 0 (length (sent s)) now env d sigs b s hs hn shows (record {
            reading = reading;
            quiet = quiet;
            room = room;
            count = refl;
            outcome = inr (refl, line);
          }))
          e in
      (h.reading.state, h.count, h.outcome)
