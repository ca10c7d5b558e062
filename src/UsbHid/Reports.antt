-- ===== src/UsbHid/Reports.antt =====
-- The reports of `usbHidService`, endpoint by endpoint.
use wixel_sdk.Base.{
  ℕ, ◌≡◌, refl, ap, ◌∙◌, ◌⊎◌, inl, inr, Bool, true, false, not, ◌&&◌, ◌||◌, List, [], ◌∷◌, ◌++◌,
  Option, none, some, arith, if◌then◌else◌, if_cases, ◌==◌,
}
use wixel_sdk.Usb.Defs.{copy_out}
use wixel_sdk.UsbHid.{
  Layout, Hid, keyboard_size, mouse_size, joystick_size, idle_over, keyboard_part, mouse_part,
  joystick_part,
}

abbrev or_else {ℓ} : {A : Type ℓ} → Option A → Option A → Option A
or_else none b = b
or_else (some a) b = some a

-- The last report of an endpoint
abbrev pub last_of : ℕ → List (ℕ × List ℕ) → Option (List ℕ)
last_of e [] = none
last_of e ((n, bytes) ∷ rs) = or_else (last_of e rs) (if n == e then some bytes else none)

last_of-same :
    (e : ℕ) (bytes : List ℕ) (rs : List (ℕ × List ℕ))
    → (e == e) ≡ true
    → last_of e (rs ++ (e, bytes) ∷ []) ≡ some bytes
last_of-same e bytes [] h = ap (λ c. if c then some bytes else none) h
last_of-same e bytes ((n, b) ∷ rs) h =
    ap (λ o. or_else o (if n == e then some b else none)) (last_of-same e bytes rs h)

last_of-other :
    (e n : ℕ) (bytes : List ℕ) (rs : List (ℕ × List ℕ))
    → (n == e) ≡ false
    → last_of e (rs ++ (n, bytes) ∷ []) ≡ last_of e rs
last_of-other e n bytes [] h = ap (λ c. if c then some bytes else none) h
last_of-other e n bytes ((m, b) ∷ rs) h =
    ap (λ o. or_else o (if m == e then some b else none)) (last_of-other e n bytes rs h)

-- The host has been sent what is in memory.
abbrev pub Current : ℕ → ℕ → ℕ → Hid → Type 0
Current e size at h = last_of e h.reports ≡ some (copy_out size at h.usb.xdata)

-- It has, or a report is still to be sent.
pub record Fresh (l : Layout) (h : Hid) : Type 0 where
  pub keyboard : (h.keyboard_updated ≡ true) ⊎ Current 1 keyboard_size l.keyboard_input h
  pub mouse : (h.mouse_updated ≡ true) ⊎ Current 2 mouse_size l.mouse_input h
  pub joystick : (h.joystick_updated ≡ true) ⊎ Current 3 joystick_size l.joystick_input h

pub record Reported (l : Layout) (h : Hid) : Type 0 where
  pub keyboard : Current 1 keyboard_size l.keyboard_input h
  pub mouse : Current 2 mouse_size l.mouse_input h
  pub joystick : Current 3 joystick_size l.joystick_input h

-- With nothing to report, it has been.
settled : {P : Type 0} (updated : Bool) → updated ≡ false → (updated ≡ true) ⊎ P → P
settled updated e (inl f) = absurd (ground (arith, e, f))
settled updated e (inr p) = p

pub record Later (l : Layout) (h : Hid) : Type 0 where
  keyboard : Current 1 keyboard_size l.keyboard_input h
  mouse : (h.mouse_updated ≡ true) ⊎ Current 2 mouse_size l.mouse_input h
  joystick : (h.joystick_updated ≡ true) ⊎ Current 3 joystick_size l.joystick_input h

pub keyboard_part-Later :
    (l : Layout) (now later : ℕ) (h : Hid) → Fresh l h → Later l (keyboard_part l false now later h)
unfolding keyboard_part
keyboard_part-Later l now later h f =
    let bytes = copy_out keyboard_size l.keyboard_input h.usb.xdata in
    if_cases {A = Hid} (Later l) ((h.keyboard_updated || idle_over l now h) && not false) _ _
      (λ c. record {
        keyboard = last_of-same 1 bytes h.reports refl;
        mouse = elim f.mouse [
          | inl e ↦ inl e
          | inr e ↦ inr (last_of-other 2 1 bytes h.reports refl ∙ e)
        ];
        joystick = elim f.joystick [
          | inl e ↦ inl e
          | inr e ↦ inr (last_of-other 3 1 bytes h.reports refl ∙ e)
        ];
      })
      (λ c. record {
        keyboard = settled h.keyboard_updated (ground (arith, c)) f.keyboard;
        mouse = f.mouse;
        joystick = f.joystick;
      })

pub record Last (l : Layout) (h : Hid) : Type 0 where
  keyboard : Current 1 keyboard_size l.keyboard_input h
  mouse : Current 2 mouse_size l.mouse_input h
  joystick : (h.joystick_updated ≡ true) ⊎ Current 3 joystick_size l.joystick_input h

pub mouse_part-Last : (l : Layout) (h : Hid) → Later l h → Last l (mouse_part l false h)
unfolding mouse_part
mouse_part-Last l h f =
    let bytes = copy_out mouse_size l.mouse_input h.usb.xdata in
    if_cases {A = Hid} (Last l) (h.mouse_updated && not false) _ _
      (λ c. record {
        keyboard = last_of-other 1 2 bytes h.reports refl ∙ f.keyboard;
        mouse = last_of-same 2 bytes h.reports refl;
        joystick = elim f.joystick [
          | inl e ↦ inl e
          | inr e ↦ inr (last_of-other 3 2 bytes h.reports refl ∙ e)
        ];
      })
      (λ c. record {
        keyboard = f.keyboard;
        mouse = settled h.mouse_updated (ground (arith, c)) f.mouse;
        joystick = f.joystick;
      })

pub joystick_part-Reported :
    (l : Layout) (h : Hid) → Last l h → Reported l (joystick_part l false h)
unfolding joystick_part
joystick_part-Reported l h f =
    let bytes = copy_out joystick_size l.joystick_input h.usb.xdata in
    if_cases {A = Hid} (Reported l) (h.joystick_updated && not false) _ _
      (λ c. record {
        keyboard = last_of-other 1 3 bytes h.reports refl ∙ f.keyboard;
        mouse = last_of-other 2 3 bytes h.reports refl ∙ f.mouse;
        joystick = last_of-same 3 bytes h.reports refl;
      })
      (λ c. record {
        keyboard = f.keyboard;
        mouse = f.mouse;
        joystick = settled h.joystick_updated (ground (arith, c)) f.joystick;
      })

-- The invariant, whatever endpoint is busy
pub keyboard_part-Fresh :
    (l : Layout) (busy : Bool) (now later : ℕ) (h : Hid)
    → Fresh l h
    → Fresh l (keyboard_part l busy now later h)
unfolding keyboard_part
keyboard_part-Fresh l busy now later h f =
    let bytes = copy_out keyboard_size l.keyboard_input h.usb.xdata in
    if_cases {A = Hid} (Fresh l) ((h.keyboard_updated || idle_over l now h) && not busy) _ _
      (λ c. record {
        keyboard = inr (last_of-same 1 bytes h.reports refl);
        mouse = elim f.mouse [
          | inl e ↦ inl e
          | inr e ↦ inr (last_of-other 2 1 bytes h.reports refl ∙ e)
        ];
        joystick = elim f.joystick [
          | inl e ↦ inl e
          | inr e ↦ inr (last_of-other 3 1 bytes h.reports refl ∙ e)
        ];
      })
      (λ c. record { keyboard = f.keyboard; mouse = f.mouse; joystick = f.joystick })

pub mouse_part-Fresh :
    (l : Layout) (busy : Bool) (h : Hid) → Fresh l h → Fresh l (mouse_part l busy h)
unfolding mouse_part
mouse_part-Fresh l busy h f =
    let bytes = copy_out mouse_size l.mouse_input h.usb.xdata in
    if_cases {A = Hid} (Fresh l) (h.mouse_updated && not busy) _ _
      (λ c. record {
        keyboard = elim f.keyboard [
          | inl e ↦ inl e
          | inr e ↦ inr (last_of-other 1 2 bytes h.reports refl ∙ e)
        ];
        mouse = inr (last_of-same 2 bytes h.reports refl);
        joystick = elim f.joystick [
          | inl e ↦ inl e
          | inr e ↦ inr (last_of-other 3 2 bytes h.reports refl ∙ e)
        ];
      })
      (λ c. record { keyboard = f.keyboard; mouse = f.mouse; joystick = f.joystick })

pub joystick_part-Fresh :
    (l : Layout) (busy : Bool) (h : Hid) → Fresh l h → Fresh l (joystick_part l busy h)
unfolding joystick_part
joystick_part-Fresh l busy h f =
    let bytes = copy_out joystick_size l.joystick_input h.usb.xdata in
    if_cases {A = Hid} (Fresh l) (h.joystick_updated && not busy) _ _
      (λ c. record {
        keyboard = elim f.keyboard [
          | inl e ↦ inl e
          | inr e ↦ inr (last_of-other 1 3 bytes h.reports refl ∙ e)
        ];
        mouse = elim f.mouse [
          | inl e ↦ inl e
          | inr e ↦ inr (last_of-other 2 3 bytes h.reports refl ∙ e)
        ];
        joystick = inr (last_of-same 3 bytes h.reports refl);
      })
      (λ c. record { keyboard = f.keyboard; mouse = f.mouse; joystick = f.joystick })
