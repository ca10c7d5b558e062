-- ===== src/Apps/Forward.antt =====
-- The loop of the bridges in apps, `while (rxAvailable() && txAvailable()) txSendByte(rxReceiveByte());`,
-- between any two serial interfaces.
use wixel_sdk.Base.{
  ℕ, zero, suc, ◌<◌, ◌≡◌, refl, sym, ap, ◌∙◌, ◌⊎◌, inl, inr, List, [], ◌∷◌, ◌++◌, append_assoc,
  append-nil, Option, none, some, arith, length, if◌then◌else◌, if_cases, ltb,
}
use wixel_sdk.Apps.{Serial}

-- What holds of a result, and there is one.
abbrev pub Returns : {A : Type 0} → (A → Type 0) → Option A → Type 0
Returns P none = ⊥
Returns P (some a) = P a

-- A serial interface as two lists: the bytes waiting to be read, and all that has been given to send; and the
-- two counts that it reports.
pub record Streams {S : Type 0} (port : Serial S) : Type 1 where
  pub IsValid : S → Type 0
  pub waiting : S → List ℕ
  pub sent : S → List ℕ
  pub offered : S → ℕ
  pub room : S → ℕ
  -- The counts are those that asking returns; sending leaves alone what can be read.
  pub offers_count : (s : S) → Returns (λ r. offered r.1 ≡ r.0) (port.rx_available s)
  pub room_count : (s : S) → room (port.tx_available s).1 ≡ (port.tx_available s).0
  pub still_offered :
      (byte : ℕ) (s : S)
      → let t = (port.tx_available s).1 in
        (offered t ≡ offered s) × (offered (port.tx_send_byte byte t) ≡ offered s)
  -- Asking changes nothing; what is reported as available can be read.
  pub offers :
      (s : S)
      → IsValid s
      → Returns
          (λ r.
            IsValid r.1
            × (waiting r.1 ≡ waiting s)
            × (sent r.1 ≡ sent s)
            × ((r.0 ≡ 0)
                ⊎ (let (byte, s') = port.rx_receive_byte r.1 in
                    (waiting s ≡ byte ∷ waiting s') × IsValid s' × (sent s' ≡ sent s))))
          (port.rx_available s)
  -- Asking changes nothing; where there is room, a byte is taken at the end.
  pub accepts :
      (s : S)
      → IsValid s
      → let (n, t) = port.tx_available s in
        IsValid t
        × (waiting t ≡ waiting s)
        × (sent t ≡ sent s)
        × ((n ≡ 0)
            ⊎ ((byte : ℕ)
                → let s' = port.tx_send_byte byte t in
                  (sent s' ≡ sent s ++ byte ∷ []) × IsValid s' × (waiting s' ≡ waiting s)))

module _ {A B : Type 0} (from : Serial A) (to : Serial B) where
  abbrev pub sending : (A → B → Option (A × B)) → A → ℕ × B → Option (A × B)
  sending more a (m, b) =
      if ltb 0 m
      then (let (byte, a') = from.rx_receive_byte a in more a' (to.tx_send_byte byte b))
      else some (a, b)

  abbrev pub turn : (A → B → Option (A × B)) → B → Option (ℕ × A) → Option (A × B)
  turn more b none = none
  turn more b (some (n, a)) = if ltb 0 n then sending more a (to.tx_available b) else some (a, b)

  -- The loop, with fuel for its rounds
  unfoldable pub forward : ℕ → A → B → Option (A × B)
  forward zero a b = none
  forward (suc fuel) a b = turn (forward fuel) b (from.rx_available a)

module _ {A B : Type 0} (from : Serial A) (to : Serial B) (F : Streams from) (T : Streams to) where
  -- The loop has ended: there is nothing to read, or no room.
  abbrev pub Stops : A × B → Type 0
  Stops (a, b) = (F.offered a ≡ 0) ⊎ (T.room b ≡ 0)

  -- Bytes taken from the front of one interface are at the end of the other, and nothing else has
  -- changed.
  pub record Moved (a : A) (b : B) (r : A × B) : Type 0 where
    pub moved : List ℕ
    pub taken : F.waiting a ≡ moved ++ F.waiting r.0
    pub given : T.sent r.1 ≡ T.sent b ++ moved
    pub back : F.sent r.0 ≡ F.sent a
    pub kept : T.waiting r.1 ≡ T.waiting b
    pub still : T.offered r.1 ≡ T.offered b
    pub from_valid : F.IsValid r.0
    pub to_valid : T.IsValid r.1
    pub stops : Stops r

  Moved-cons :
      (byte : ℕ) (a a' : A) (b b' : B) (o : Option (A × B))
      → F.waiting a ≡ byte ∷ F.waiting a'
      → F.sent a' ≡ F.sent a
      → T.sent b' ≡ T.sent b ++ byte ∷ []
      → T.waiting b' ≡ T.waiting b
      → T.offered b' ≡ T.offered b
      → Returns (Moved a' b') o
      → Returns (Moved a b) o
  Moved-cons byte a a' b b' none w s t k f h = h
  Moved-cons byte a a' b b' (some r) w s t k f h = record {
    moved = byte ∷ h.moved;
    taken = w ∙ ap (◌∷◌ byte) h.taken;
    given = h.given ∙ ap (λ l. l ++ h.moved) t ∙ append_assoc (T.sent b) (byte ∷ []) h.moved;
    back = h.back ∙ s;
    kept = h.kept ∙ k;
    still = h.still ∙ f;
    from_valid = h.from_valid;
    to_valid = h.to_valid;
    stops = h.stops;
  }

  sending-Moved :
      (more : A → B → Option (A × B)) (a a0 : A) (b : B)
      → F.IsValid a0
      → F.waiting a0 ≡ F.waiting a
      → F.sent a0 ≡ F.sent a
      → T.IsValid b
      → (let (byte, a') = from.rx_receive_byte a0 in
          (F.waiting a ≡ byte ∷ F.waiting a') × F.IsValid a' × (F.sent a' ≡ F.sent a))
      → ((a' : A) (b' : B)
          → F.IsValid a'
          → T.IsValid b'
          → length (F.waiting a') < length (F.waiting a)
          → Returns (Moved a' b') (more a' b'))
      → Returns (Moved a b) (sending from to more a0 (to.tx_available b))
  sending-Moved more a a0 b v w s vb got k =
      let byte = (from.rx_receive_byte a0).0 in
      let a' = (from.rx_receive_byte a0).1 in
      let n = (to.tx_available b).0 in
      let b0 = (to.tx_available b).1 in
      let h = T.accepts b vb in
      if_cases (Returns (Moved a b)) (ltb 0 n) (more a' (to.tx_send_byte byte b0)) (some (a0, b0))
        (λ room. elim h.3 [
          | inl none_left ↦ absurd (ground (arith, room, none_left))
          | inr puts ↦
              Moved-cons byte a a' b (to.tx_send_byte byte b0) _ got.0 got.2 (puts byte).0
                (puts byte).2 (T.still_offered byte b).1
                (k a' (to.tx_send_byte byte b0) got.1 (puts byte).1
                  (omega (arith, ap length got.0)))
        ])
        (λ full. record {
          moved = [];
          taken = sym w;
          given = h.2 ∙ sym (append-nil (T.sent b));
          back = s;
          kept = h.1;
          still = (T.still_offered byte b).0;
          from_valid = v;
          to_valid = h.0;
          stops = inr (T.room_count b ∙ ground (arith, full));
        })

  turn-Moved :
      (more : A → B → Option (A × B)) (a : A) (b : B) (o : Option (ℕ × A))
      → Returns (λ r. F.offered r.1 ≡ r.0) o
      → T.IsValid b
      → Returns
          (λ r.
            F.IsValid r.1
            × (F.waiting r.1 ≡ F.waiting a)
            × (F.sent r.1 ≡ F.sent a)
            × ((r.0 ≡ 0)
                ⊎ (let (byte, s') = from.rx_receive_byte r.1 in
                    (F.waiting a ≡ byte ∷ F.waiting s') × F.IsValid s' × (F.sent s' ≡ F.sent a))))
          o
      → ((a' : A) (b' : B)
          → F.IsValid a'
          → T.IsValid b'
          → length (F.waiting a') < length (F.waiting a)
          → Returns (Moved a' b') (more a' b'))
      → Returns (Moved a b) (turn from to more b o)
  turn-Moved more a b none e vb h k = absurd h
  turn-Moved more a b (some (n, a0)) e vb h k =
      if_cases (Returns (Moved a b)) (ltb 0 n) (sending from to more a0 (to.tx_available b))
        (some (a0, b))
        (λ there. elim h.3 [
          | inl nothing ↦ absurd (ground (arith, there, nothing))
          | inr got ↦ sending-Moved more a a0 b h.0 h.1 h.2 vb got k
        ])
        (λ nothing. record {
          moved = [];
          taken = sym h.1;
          given = sym (append-nil (T.sent b));
          back = h.2;
          kept = refl;
          still = refl;
          from_valid = h.0;
          to_valid = vb;
          stops = inl (e ∙ ground (arith, nothing));
        })

  -- The loop ends after as many rounds as bytes wait, at most. It has moved bytes from the front of those that
  -- wait on one interface to the end of those sent on the other, in order, with nothing lost or added,
  -- and ends because nothing can be read or there is no room.
  pub forward_lem :
      (fuel : ℕ) (a : A) (b : B)
      → F.IsValid a
      → T.IsValid b
      → length (F.waiting a) < fuel
      → Returns (Moved a b) (forward from to fuel a b)
  unfolding forward
  forward_lem zero a b va vb enough = absurd (omega (arith, enough))
  forward_lem (suc fuel) a b va vb enough =
      turn-Moved (forward from to fuel) a b (from.rx_available a) (F.offers_count a) vb
        (F.offers a va)
        (λ a' b' va' vb' less. forward_lem fuel a' b' va' vb' (omega (arith, less, enough)))
