-- ===== src/Spi/Transfers.antt =====
-- A whole transfer against a block exchange, and a single byte.
use wixel_sdk.Base.{
  ℕ, zero, suc, ◌+◌, ◌^◌, ◌≤◌, ◌<◌, ◌≡◌, refl, sym, ap, ap₂, subst, ◌∙◌, ◌⊎◌, true, false, List, [],
  ◌∷◌, ◌++◌, Option, none, some, arith, length, get_or, set, get_or-set_self, get_or-set_ne,
}
use wixel_sdk.Spi.{Spi, transfer, urx_isr, wait, send_byte, busy}

abbrev pub written : Option ℕ → List ℕ
written none = []
written (some b) = b ∷ []

-- The receive interrupt for each of the slave's bytes: what is written to the data register.
unfoldable pub exchange : List ℕ → Spi → List ℕ × Spi
exchange [] s = ([], s)
exchange (b ∷ bs) s =
    let (out, s') = urx_isr b s in let (rest, last) = exchange bs s' in (written out ++ rest, last)

-- `n` bytes of a memory from an address on, and a memory with bytes written from an address on.
abbrev pub slice : List ℕ → ℕ → ℕ → List ℕ
slice xs i zero = []
slice xs i (suc n) = get_or xs i 0 ∷ slice xs (i + 1) n

abbrev pub overwrite : List ℕ → ℕ → List ℕ → List ℕ
overwrite xs i [] = xs
overwrite xs i (b ∷ bs) = overwrite (set xs i b) (i + 1) bs

slice-set_ne :
    (n : ℕ) (xs : List ℕ) (i r b : ℕ)
    → (r < i) ⊎ (i + n ≤ r)
    → slice (set xs r b) i n ≡ slice xs i n
slice-set_ne zero xs i r b h = refl
slice-set_ne (suc n) xs i r b h =
    ap₂ ◌∷◌ (get_or-set_ne xs r i b 0 (ground (arith, h)))
      (slice-set_ne n xs (i + 1) r b (ground (arith, h)))

-- One interrupt with bytes left after it.
urx_isr-more :
    (b k : ℕ) (s : Spi)
    → s.bytes_left ≡ suc (suc k)
    → suc (suc k) < 2 ^ 16
    → s.tx_pointer + 1 < 2 ^ 16
    → s.rx_pointer + 1 < 2 ^ 16
    → urx_isr b s ≡ (
      some (get_or (set s.xdata s.rx_pointer b) (s.tx_pointer + 1) 0),
      record s {
        urx_if = false;
        xdata = set s.xdata s.rx_pointer b;
        rx_pointer = s.rx_pointer + 1;
        tx_pointer = s.tx_pointer + 1;
        bytes_left = suc k;
      },
    )
unfolding urx_isr
urx_isr-more b k s left hk ht hr = ground (arith)

-- What an exchange does whose first byte is on its way: it writes the bytes after the transmit pointer,
-- stores the slave's bytes from the receive pointer on, and leaves the port idle.
record Exchanged (s : Spi) (bs : List ℕ) (n : ℕ) (result : List ℕ × Spi) : Type 0 where
  sent : result.0 ≡ slice s.xdata (s.tx_pointer + 1) n
  stored : result.1.xdata ≡ overwrite s.xdata s.rx_pointer bs
  ended : result.1.bytes_left ≡ 0
  idle : result.1.urx_ie ≡ false

exchange-Exchanged :
    (b : ℕ) (bs : List ℕ) (s : Spi)
    → s.bytes_left ≡ suc (length bs)
    → suc (length bs) < 2 ^ 16
    → s.tx_pointer + length bs < 2 ^ 16
    → s.rx_pointer + length bs < 2 ^ 16
    → (s.rx_pointer ≤ s.tx_pointer) ⊎ (s.tx_pointer + suc (length bs) ≤ s.rx_pointer)
    → Exchanged s (b ∷ bs) (length bs) (exchange (b ∷ bs) s)
unfolding exchange urx_isr
exchange-Exchanged b [] s left size ht hr apart = record {
  sent = ground (arith);
  stored = ground (arith);
  ended = ground (arith);
  idle = ground (arith);
}
exchange-Exchanged b (c ∷ bs) s left size ht hr apart =
    let xdata = set s.xdata s.rx_pointer b in
    let s' : Spi = record s {
      urx_if = false;
      xdata = xdata;
      rx_pointer = s.rx_pointer + 1;
      tx_pointer = s.tx_pointer + 1;
      bytes_left = suc (length bs);
    } in
    let rest =
      exchange-Exchanged c bs s' refl (omega arith) (omega arith) (omega arith)
        (ground (arith, apart)) in
    subst
      (λ p.
        Exchanged s (b ∷ c ∷ bs) (suc (length bs))
          (written p.0 ++ (exchange (c ∷ bs) p.1).0, (exchange (c ∷ bs) p.1).1))
      (sym (urx_isr-more b (length bs) s left (omega arith) (omega arith) (omega arith)))
      (record {
        sent =
            ap₂ ◌∷◌
              (get_or-set_ne s.xdata s.rx_pointer (s.tx_pointer + 1) b 0 (ground (arith, apart)))
              (rest.sent
                ∙ slice-set_ne (length bs) s.xdata (s.tx_pointer + 1 + 1) s.rx_pointer b
                    (ground (arith, apart)));
        stored = rest.stored;
        ended = rest.ended;
        idle = rest.idle;
      })

transfer-suc :
    (tx rx n : ℕ) (s : Spi)
    → transfer tx rx (suc n) s ≡ (
      some (get_or s.xdata tx 0),
      record s { tx_pointer = tx; rx_pointer = rx; bytes_left = suc n; urx_ie = true },
    )
unfolding transfer
transfer-suc tx rx n s = ground (arith)

-- From an idle port, a transfer and the receive interrupt for each byte of the slave write the bytes at
-- the transmit address in order, store the slave's bytes at the receive address, and leave the port
-- idle; the buffers do not run past the end of the addresses, and no byte is received over one that is
-- still to be sent.
pub transfer-exchange :
    (tx rx : ℕ) (replies : List ℕ) (s : Spi)
    → busy s ≡ false
    → length replies < 2 ^ 16
    → tx + length replies < 2 ^ 16
    → rx + length replies < 2 ^ 16
    → (rx ≤ tx) ⊎ (tx + length replies ≤ rx)
    → let (first, started) = transfer tx rx (length replies) s in
      let (rest, ended) = exchange replies started in
      (written first ++ rest ≡ slice s.xdata tx (length replies))
      × (ended.xdata ≡ overwrite s.xdata rx replies)
      × (busy ended ≡ false)
unfolding transfer exchange busy
transfer-exchange tx rx [] s idle size ht hr apart = (refl, refl, idle)
transfer-exchange tx rx (b ∷ bs) s idle size ht hr apart =
    let s' : Spi = record s {
      tx_pointer = tx;
      rx_pointer = rx;
      bytes_left = suc (length bs);
      urx_ie = true;
    } in
    let e = exchange-Exchanged b bs s' refl size (omega arith) (omega arith) apart in
    subst
      (λ t.
        (written t.0 ++ (exchange (b ∷ bs) t.1).0 ≡ slice s.xdata tx (suc (length bs)))
        × ((exchange (b ∷ bs) t.1).1.xdata ≡ overwrite s.xdata rx (b ∷ bs))
        × (busy (exchange (b ∷ bs) t.1).1 ≡ false))
      (sym (transfer-suc tx rx (length bs) s))
      (ap (◌∷◌ (get_or s.xdata tx 0)) e.sent, e.stored, e.idle)

-- A byte sent is written to the data register; the call ends with the slave's next byte, which it
-- returns, and leaves the port idle with nothing but the byte's place in memory changed.
pub send_byte-reply :
    (local byte reply : ℕ) (replies : List ℕ) (s : Spi)
    → local < length s.xdata
    → local + 1 < 2 ^ 16
    → send_byte local byte (reply ∷ replies) s ≡ (
      byte,
      some (
        reply,
        record s {
          rx_pointer = local + 1;
          bytes_left = 0;
          xdata = set s.xdata local reply;
          urx_if = false;
          urx_ie = false;
        },
      ),
    )
unfolding send_byte wait urx_isr
send_byte-reply local byte reply [] s h k =
    ground (arith, h, k, get_or-set_self s.xdata local reply 0 h)
send_byte-reply local byte reply (r ∷ rs) s h k =
    ground (arith, h, k, get_or-set_self s.xdata local reply 0 h)
