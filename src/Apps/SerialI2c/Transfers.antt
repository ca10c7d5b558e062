-- ===== src/Apps/SerialI2c/Transfers.antt =====
-- A write command on the bus: the address, the length and the data that follow a start.
use wixel_sdk.Base.{
  ℕ, ◌+◌, ◌<◌, ◌≡◌, ◌≢◌, ◌⊎◌, Bool, true, false, List, [], ◌∷◌, Option, none, some, arith, All,
  length, bit_and,
}
use wixel_sdk.I2c.{Readings}
use wixel_sdk.I2c.Bus.{Signal, clocked, OnSome, OnSome-elim, low, bus}
use wixel_sdk.I2c.Bytes.{clock_out, bits_of}
use wixel_sdk.Apps.SerialI2c.{Bridge, State, idle, get_addr, parse_cmd}
use wixel_sdk.Apps.SerialI2c.Writing.{
  frames, phase, Acknowledges, Progress, Addressed, said, parse_cmd-Addressed, parse_cmd-length,
  parse_cmd-data,
}

-- The bytes of a command one after another; the readings at the i-th are `env i`.
abbrev pub next : (Bridge → Option Bridge) → Option Bridge → Option Bridge
next more none = none
next more (some b) = more b

unfoldable pub parse_all : List ℕ → ℕ → (ℕ → ℕ → Readings) → Bridge → Option Bridge
parse_all [] i env b = some b
parse_all (x ∷ xs) i env b = next (parse_all xs (i + 1) env) (parse_cmd x (env i) b)

next-OnSome :
    (P Q : Bridge → Type 0) (more : Bridge → Option Bridge) (o : Option Bridge)
    → OnSome P o
    → ((b : Bridge) → P b → OnSome Q (more b))
    → OnSome Q (next more o)
next-OnSome P Q more none h k = tt
next-OnSome P Q more (some b) h k = k b h

said-OnSome :
    {Acked Acked' : Type 0} (st : State) (n : ℕ) (d : Bool) (sigs : List Signal) (o : Option Bridge)
    → (Acked → Acked')
    → OnSome (Progress Acked st n d sigs) o
    → OnSome (Progress Acked' st n d sigs) o
said-OnSome st n d sigs none f h = tt
said-OnSome st n d sigs (some b) f h = record {
  state = h.state;
  length = h.length;
  writes = h.writes;
  errors = h.errors;
  outcome = said d sigs b f h.outcome;
}

parse_all-Progress :
    (Acked : Type 0) (xs : List ℕ) (i : ℕ) (env : ℕ → ℕ → Readings) (sigs : List Signal)
    (b : Bridge)
    → All (λ x. x < 256) xs
    → length xs < 256
    → Progress Acked (phase (length xs)) (length xs) true sigs b
    → OnSome
        (Progress (Acked × Acknowledges xs i env) idle 0 true (frames xs sigs))
        (parse_all xs i env b)
unfolding parse_all
parse_all-Progress Acked [] i env sigs b hs hn h =
    said-OnSome idle 0 true sigs (some b) (λ acked. (acked, tt)) h
parse_all-Progress Acked (x ∷ xs) i env sigs b hs hn h =
    let now = clocked true ∷ clock_out (bits_of x) sigs in
    let AckedNow = Acked × ((env i 8).sda ≡ false) in
    said-OnSome idle 0 true (frames xs now) (parse_all (x ∷ xs) i env b)
      (λ acked. (acked.0.0, (acked.0.1, acked.1)))
      (next-OnSome (Progress AckedNow (phase (length xs)) (length xs) true now)
        (Progress (AckedNow × Acknowledges xs (i + 1) env) idle 0 true (frames xs now))
        (parse_all xs (i + 1) env) (parse_cmd x (env i) b)
        (parse_cmd-data Acked x (length xs) (env i) sigs b hs.0 hn h)
        (λ b h. parse_all-Progress AckedNow xs (i + 1) env now b hs.1 (omega (arith, hn)) h))

-- After a start, the bytes of a write command - the address, the number of data bytes, the data - leave
-- the machine idle again; and if no error is flagged then, the slave has shown the acknowledgement after the
-- address and after every byte of data, and the bus has seen their bits, each followed by a bit that the
-- master leaves to the slave, and nothing else.
pub write_command_lem :
    (address : ℕ) (bytes : List ℕ) (env : ℕ → ℕ → Readings) (d : Bool) (sigs : List Signal)
    (b b' : Bridge)
    → address < 256
    → bit_and address 1 ≡ 0
    → All (λ x. x < 256) bytes
    → length bytes < 256
    → b.state ≡ get_addr
    → b.errors < 256
    → bus b.i2c.calls ≡ low d sigs
    → parse_all (address ∷ length bytes ∷ bytes) 0 env b ≡ some b'
    → (b'.state ≡ idle)
      × ((b'.errors ≢ 0)
          ⊎ ((((env 0 8).sda ≡ false) × Acknowledges bytes 2 env)
              × (bus b'.i2c.calls ≡ low true (frames (address ∷ bytes) sigs))))
unfolding parse_all
write_command_lem address bytes env d sigs b b' ha dir hs hn st he line e =
    let now = clocked true ∷ clock_out (bits_of address) sigs in
    let Acked = Unit × ((env 0 8).sda ≡ false) in
    let n = length bytes in
    let Ends = Progress (Acked × Acknowledges bytes 2 env) idle 0 true (frames bytes now) in
    let more : ℕ → Bridge → Option Bridge = λ i. parse_all bytes i env in
    let h =
      OnSome-elim Ends {a = b'}
        (next-OnSome (Addressed Acked now) Ends (λ b. next (more 2) (parse_cmd n (env 1) b))
          (parse_cmd address (env 0) b)
          (parse_cmd-Addressed address (env 0) d sigs b ha dir st he line)
          (λ b h.
            next-OnSome (Progress Acked (phase n) n true now) Ends (more 2) (parse_cmd n (env 1) b)
              (parse_cmd-length Acked n (env 1) now b h)
              (λ b h. parse_all-Progress Acked bytes 2 env now b hs hn h)))
        e in
    (h.state, said true (frames bytes now) b' (λ acked. (acked.0.1, acked.1)) h.outcome)
