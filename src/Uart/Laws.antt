-- ===== src/Uart/Laws.antt =====
-- The two circular buffers as queues: what is sent comes out once and in order, and what is received
-- is kept until it is read or reported lost.
use wixel_sdk.Base.{
  ℕ, zero, suc, ◌/◌, ◌||◌, ltb, take, take-nil, ℕ_discrete, ◌+◌, ◌-◌, ◌%◌, ◌^◌, ◌≤◌, ◌<◌, ◌≡◌, ◌≢◌,
  refl, sym, ap, ap₂, ◌∙◌, Bool, true, List, [], ◌∷◌, ◌++◌, Option, none, some, arith, length,
  get_or, set, length-set, length-append, u16, append_assoc, append-nil, if◌then◌else◌, ◌==◌,
}
use wixel_sdk.Base.Bits.{bit_and_255, bit_and_24, bit_and_16, bit_and_8}
use wixel_sdk.Base.Ring.{span, length-span, span-push, span-congr}
use wixel_sdk.Uart.{
  Uart, Port, buffer_size, next_index, tx_available, rx_free, rx_available, tx_send_byte, tx_send,
  rx_receive_byte, utx_isr, urx_isr,
}

pub record IsValid (u : Uart) : Type 0 where
  pub tx_size : length u.tx_buffer ≡ buffer_size
  pub rx_size : length u.rx_buffer ≡ buffer_size
  pub tx_main_in : u.tx_main < buffer_size
  pub tx_int_in : u.tx_int < buffer_size
  pub rx_main_in : u.rx_main < buffer_size
  pub rx_int_in : u.rx_int < buffer_size

abbrev distance : ℕ → ℕ → ℕ
distance from to = (to + buffer_size - from) % buffer_size

-- The bytes waiting to be sent and those waiting to be read, oldest first.
abbrev pub tx_contents : Uart → List ℕ
tx_contents u = span 0 buffer_size u.tx_buffer u.tx_int (distance u.tx_int u.tx_main)

abbrev pub rx_contents : Uart → List ℕ
rx_contents u = span 0 buffer_size u.rx_buffer u.rx_main (distance u.rx_main u.rx_int)

-- The three counts that the code computes are the lengths of the queues and what is left.
pub available_counts :
    (u : Uart)
    → IsValid u
    → (tx_available u + length (tx_contents u) ≡ buffer_size - 1)
      × (rx_available u ≡ length (rx_contents u))
      × (rx_free u + length (rx_contents u) ≡ buffer_size - 1)
unfolding tx_available rx_available rx_free
available_counts u v = ground (
  arith,
  bit_and_255 (u16 (u.tx_int + 2 ^ 16 - u.tx_main + 2 ^ 16 - 1)),
  bit_and_255 (u16 (u.rx_main + 2 ^ 16 - u.rx_int + 2 ^ 16 - 1)),
  bit_and_255 (u16 (u.rx_int + 2 ^ 16 - u.rx_main)),
  length-span 0 buffer_size u.tx_buffer u.tx_int (distance u.tx_int u.tx_main),
  length-span 0 buffer_size u.rx_buffer u.rx_main (distance u.rx_main u.rx_int),
)

-- Generic steps of a circular buffer of 256 bytes.
push_span :
    (xs : List ℕ) (from to byte : ℕ)
    → length xs ≡ buffer_size
    → from < buffer_size
    → to < buffer_size
    → distance from to < buffer_size - 1
    → span 0 buffer_size (set xs to byte) from (distance from (next_index to))
      ≡ span 0 buffer_size xs from (distance from to) ++ byte ∷ []
push_span xs from to byte size hf ht room =
    ap (span 0 buffer_size (set xs to byte) from) {y = suc (distance from to)}
      (omega (arith, bit_and_255 (to + 1)))
    ∙ span-push 0 buffer_size xs to byte (distance from to) from (omega arith) (omega arith)
        (λ k lt. omega arith)

pop_span :
    (xs : List ℕ) (from to : ℕ)
    → from < buffer_size
    → to < buffer_size
    → from ≢ to
    → span 0 buffer_size xs from (distance from to)
      ≡ get_or xs from 0 ∷ span 0 buffer_size xs (next_index from) (distance (next_index from) to)
pop_span xs from to hf ht ne =
    ap (span 0 buffer_size xs from) counted
    ∙ ap₂ ◌∷◌ (ap (λ i. get_or xs i 0) (omega arith)) (
        span-congr 0 buffer_size xs _ (from + 1) (next_index from)
          (omega (arith, bit_and_255 (from + 1))))
  where
    counted : distance from to ≡ suc (distance (next_index from) to)
    counted = omega (arith, bit_and_255 (from + 1))

abbrev put : Port → ℕ → Uart → Uart
put port byte u = tx_send port (byte ∷ []) u

pub tx_send_byte-IsValid :
    (port : Port) (byte : ℕ) (u : Uart) → IsValid u → IsValid (tx_send_byte port byte u)
unfolding tx_send_byte
tx_send_byte-IsValid port byte u v =
    ground (arith, length-set u.tx_buffer u.tx_main byte, bit_and_255 (u.tx_main + 1))

pub tx_send_byte_lem :
    (port : Port) (byte : ℕ) (u : Uart)
    → IsValid u
    → 0 < tx_available u
    → tx_contents (tx_send_byte port byte u) ≡ tx_contents u ++ byte ∷ []
unfolding tx_send_byte
tx_send_byte_lem port byte u v room =
    push_span u.tx_buffer u.tx_int u.tx_main byte v.tx_size v.tx_int_in v.tx_main_in (
      omega (
        arith,
        (available_counts u v).0,
        length-span 0 buffer_size u.tx_buffer u.tx_int (distance u.tx_int u.tx_main),
      ))

tx_send-cons :
    (port : Port) (byte : ℕ) (rest : List ℕ) (u : Uart)
    → tx_send port (byte ∷ rest) u ≡ tx_send port rest (tx_send_byte port byte u)
unfolding tx_send tx_send_byte
tx_send-cons port byte rest u = refl

-- Bytes that fit are queued in order behind those that wait, by `uartNTxSend` as by
-- `uartNTxSendByte`.
pub tx_send_lem :
    (port : Port) (bytes : List ℕ) (u : Uart)
    → IsValid u
    → length bytes ≤ tx_available u
    → (tx_contents (tx_send port bytes u) ≡ tx_contents u ++ bytes) × IsValid (tx_send port bytes u)
unfolding tx_send
tx_send_lem port [] u v fits = (sym (append-nil (tx_contents u)), v)
tx_send_lem port (byte ∷ rest) u v fits =
    let u' : Uart = tx_send_byte port byte u in
    let v' : IsValid u' = tx_send_byte-IsValid port byte u v in
    let here : tx_contents u' ≡ tx_contents u ++ byte ∷ [] =
      tx_send_byte_lem port byte u v (omega arith) in
    let fits' : length rest ≤ tx_available u' = omega (
      arith,
      (available_counts u v).0,
      (available_counts u' v').0,
      ap length here,
      length-append (tx_contents u) (byte ∷ []),
    ) in
    let ih = tx_send_lem port rest u' v' fits' in
    rw (tx_send-cons port byte rest u)
      (ih.0 ∙ ap (λ xs. xs ++ rest) here ∙ append_assoc (tx_contents u) (byte ∷ []) rest, ih.1)

utx_isr-IsValid : (port : Port) (u : Uart) → IsValid u → IsValid (utx_isr port u).1
unfolding utx_isr
utx_isr-IsValid port u v = ground (arith, bit_and_255 (u.tx_int + 1))

-- The bytes that a run of the transmit routine puts on the wire.
abbrev pub written : Option ℕ → List ℕ
written none = []
written (some b) = b ∷ []

-- The transmit routine writes the oldest waiting byte and takes it off the queue; with none waiting
-- it writes nothing.
utx_isr_lem :
    (port : Port) (u : Uart)
    → IsValid u
    → written (utx_isr port u).0 ++ tx_contents (utx_isr port u).1 ≡ tx_contents u
unfolding utx_isr
utx_isr_lem port u v =
    ground (arith, pop_span u.tx_buffer u.tx_int u.tx_main v.tx_int_in v.tx_main_in)

-- What the main loop and the transmit interrupt do, in any order.
pub data TxCall : Type 0 where
  sends : List ℕ → TxCall
  transmits : TxCall

-- The bytes put on the wire and the port after a sequence of calls.
pub tx_run : Port → List TxCall → Uart → List ℕ × Uart
tx_run port [] u = ([], u)
tx_run port (sends bytes ∷ cs) u = tx_run port cs (tx_send port bytes u)
tx_run port (transmits ∷ cs) u =
    let (byte, u') = utx_isr port u in
    let (rest, last) = tx_run port cs u' in (written byte ++ rest, last)

abbrev pub sent_bytes : List TxCall → List ℕ
sent_bytes [] = []
sent_bytes (sends bytes ∷ cs) = bytes ++ sent_bytes cs
sent_bytes (transmits ∷ cs) = sent_bytes cs

-- Every send fits when it is made.
unfoldable pub Fits : Port → List TxCall → Uart → Type 0
Fits port [] u = Unit
Fits port (sends bytes ∷ cs) u =
    (length bytes ≤ tx_available u) × Fits port cs (tx_send port bytes u)
Fits port (transmits ∷ cs) u = Fits port cs (utx_isr port u).1

-- Whatever the order of sends and transmit interrupts, the bytes on the wire followed by those still
-- waiting are the bytes that waited at first followed by those sent: none lost, repeated or moved.
pub tx_run_lem :
    (port : Port) (cs : List TxCall) (u : Uart)
    → IsValid u
    → Fits port cs u
    → let (wire, u') = tx_run port cs u in
      (wire ++ tx_contents u' ≡ tx_contents u ++ sent_bytes cs) × IsValid u'
unfolding tx_run Fits
tx_run_lem port [] u v f = (sym (append-nil (tx_contents u)), v)
tx_run_lem port (sends bytes ∷ cs) u v f =
    let put = tx_send_lem port bytes u v f.0 in
    let ih = tx_run_lem port cs (tx_send port bytes u) put.1 f.1 in
    (
      ih.0
          ∙ ap (λ xs. xs ++ sent_bytes cs) put.0
          ∙ append_assoc (tx_contents u) bytes (sent_bytes cs),
      ih.1,
    )
tx_run_lem port (transmits ∷ cs) u v f =
    let u' : Uart = (utx_isr port u).1 in
    let out : List ℕ = written (utx_isr port u).0 in
    let ih = tx_run_lem port cs u' (utx_isr-IsValid port u v) f in
    (
      append_assoc out (tx_run port cs u').0 _
          ∙ ap (λ xs. out ++ xs) ih.0
          ∙ sym (append_assoc out (tx_contents u') (sent_bytes cs))
          ∙ ap (λ xs. xs ++ sent_bytes cs) (utx_isr_lem port u v),
      ih.1,
    )

-- `n` runs of the transmit routine.
pub drain : Port → ℕ → Uart → List ℕ × Uart
drain port zero u = ([], u)
drain port (suc n) u =
    let (byte, u') = utx_isr port u in
    let (rest, last) = drain port n u' in (written byte ++ rest, last)

utx_isr-take :
    (port : Port) (u : Uart) (n : ℕ)
    → IsValid u
    → written (utx_isr port u).0 ++ take n (tx_contents (utx_isr port u).1)
      ≡ take (suc n) (tx_contents u)
unfolding utx_isr
utx_isr-take port u n v = elim (ℕ_discrete u.tx_int u.tx_main) [
  | yes e ↦ ground (arith, bit_and_255 (u.tx_int + 1), take-nil {0} ℕ n)
  | no ne ↦ ground (arith, pop_span u.tx_buffer u.tx_int u.tx_main v.tx_int_in v.tx_main_in ne)
]

-- `n` transmit interrupts put the `n` oldest waiting bytes on the wire, or all if there are fewer.
pub drain_lem :
    (port : Port) (n : ℕ) (u : Uart) → IsValid u → (drain port n u).0 ≡ take n (tx_contents u)
unfolding drain
drain_lem port zero u v = refl
drain_lem port (suc n) u v =
    ap (λ xs. written (utx_isr port u).0 ++ xs)
      (drain_lem port n (utx_isr port u).1 (utx_isr-IsValid port u v))
    ∙ utx_isr-take port u n v

-- What the main loop sees of the receiving side.
pub record RxView : Type 0 where
  pub queue : List ℕ
  pub framing : Bool
  pub parity : Bool
  pub full : Bool

abbrev pub rx_view : Uart → RxView
rx_view u = record {
  queue = rx_contents u;
  framing = u.framing_error;
  parity = u.parity_error;
  full = u.buffer_full;
}

-- The specification: FE is bit 4 of the status register and ERR bit 3.
unfoldable pub receive : ℕ → ℕ → RxView → RxView
receive csr byte r =
    if csr / 8 % 4 == 0
    then (if ltb (length r.queue) (buffer_size - 1)
        then record r { queue = r.queue ++ byte ∷ [] }
        else record r { full = true })
    else record r {
      framing = csr / 16 % 2 == 1 || r.framing;
      parity = csr / 8 % 2 == 1 || r.parity;
    }

-- The receive routine queues a byte without error at the end if it fits, drops and flags it if it
-- does not, and with an error drops the byte and flags the kind of error; it keeps the port valid.
pub urx_isr_lem :
    (csr byte : ℕ) (u : Uart)
    → IsValid u
    → (rx_view (urx_isr csr byte u) ≡ receive csr byte (rx_view u)) × IsValid (urx_isr csr byte u)
unfolding urx_isr receive
urx_isr_lem csr byte u v = (
  ground (
    arith,
    bit_and_24 csr,
    bit_and_16 csr,
    bit_and_8 csr,
    (available_counts u v).2,
    push_span u.rx_buffer u.rx_main u.rx_int byte v.rx_size v.rx_main_in v.rx_int_in,
    length-span 0 buffer_size u.rx_buffer u.rx_main (distance u.rx_main u.rx_int),
  ),
  ground (arith, length-set u.rx_buffer u.rx_int byte, bit_and_255 (u.rx_int + 1)),
)

-- Reading takes the oldest byte off the queue.
pub rx_receive_byte_lem :
    (u : Uart)
    → IsValid u
    → 0 < rx_available u
    → let (byte, u') = rx_receive_byte u in (rx_contents u ≡ byte ∷ rx_contents u') × IsValid u'
unfolding rx_receive_byte rx_available
rx_receive_byte_lem u v h = (
  pop_span u.rx_buffer u.rx_main u.rx_int v.rx_main_in v.rx_int_in
      (omega (arith, bit_and_255 (u16 (u.rx_int + 2 ^ 16 - u.rx_main)))),
  ground (arith, bit_and_255 (u.rx_main + 1)),
)
