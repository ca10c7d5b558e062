-- ===== src/UsbHid/Runs.antt =====
-- The reports over any order of updates and services: what the host has last been sent is what the
-- application has last written.
use wixel_sdk.Base.{
  ℕ, ◌≡◌, refl, sym, ap, ◌∙◌, ◌⊎◌, inl, inr, Bool, true, false, Option, some, arith, if_cases, ◌==◌,
}
use wixel_sdk.Usb.Defs.{Usb, configured, copy_out}
use wixel_sdk.Usb.Poll.{Registers, poll}
use wixel_sdk.UsbHid.{
  Layout, Hid, Busy, keyboard_size, mouse_size, joystick_size, keyboard_part, mouse_part,
  joystick_part, app, service,
}
use wixel_sdk.UsbHid.Reports.{
  last_of, Fresh, Reported, keyboard_part-Later, mouse_part-Last, joystick_part-Reported,
  keyboard_part-Fresh, mouse_part-Fresh, joystick_part-Fresh,
}

-- A poll of the USB core that leaves the three reports in memory alone
pub record Leaves (l : Layout) (u v : Usb) : Type 0 where
  pub keyboard :
      copy_out keyboard_size l.keyboard_input v.xdata
      ≡ copy_out keyboard_size l.keyboard_input u.xdata
  pub mouse : copy_out mouse_size l.mouse_input v.xdata ≡ copy_out mouse_size l.mouse_input u.xdata
  pub joystick :
      copy_out joystick_size l.joystick_input v.xdata
      ≡ copy_out joystick_size l.joystick_input u.xdata

-- What an application does that sets the bit of each report it changes
pub record Updates (l : Layout) (h k : Hid) : Type 0 where
  pub reports : k.reports ≡ h.reports
  pub keyboard :
      (k.keyboard_updated ≡ true)
      ⊎ ((k.keyboard_updated ≡ h.keyboard_updated)
          × (copy_out keyboard_size l.keyboard_input k.usb.xdata
              ≡ copy_out keyboard_size l.keyboard_input h.usb.xdata))
  pub mouse :
      (k.mouse_updated ≡ true)
      ⊎ ((k.mouse_updated ≡ h.mouse_updated)
          × (copy_out mouse_size l.mouse_input k.usb.xdata
              ≡ copy_out mouse_size l.mouse_input h.usb.xdata))
  pub joystick :
      (k.joystick_updated ≡ true)
      ⊎ ((k.joystick_updated ≡ h.joystick_updated)
          × (copy_out joystick_size l.joystick_input k.usb.xdata
              ≡ copy_out joystick_size l.joystick_input h.usb.xdata))

moved :
    {A : Type 0} {b c : Bool} {o p : Option A} {x y : A}
    → p ≡ o
    → (c ≡ true) ⊎ ((c ≡ b) × (y ≡ x))
    → (b ≡ true) ⊎ (o ≡ some x)
    → (c ≡ true) ⊎ (p ≡ some y)
moved e (inl t) f = inl t
moved e (inr (s, m)) (inl t) = inl (s ∙ t)
moved e (inr (s, m)) (inr f) = inr (e ∙ f ∙ sym (ap some m))

Updates-Fresh : (l : Layout) (h k : Hid) → Updates l h k → Fresh l h → Fresh l k
Updates-Fresh l h k u f = record {
  keyboard = moved (ap (last_of 1) u.reports) u.keyboard f.keyboard;
  mouse = moved (ap (last_of 2) u.reports) u.mouse f.mouse;
  joystick = moved (ap (last_of 3) u.reports) u.joystick f.joystick;
}

polled-Fresh :
    (l : Layout) (u : Usb) (h : Hid) → Leaves l h.usb u → Fresh l h → Fresh l (record h { usb = u })
polled-Fresh l u h v f = record {
  keyboard = moved refl (inr (refl, v.keyboard)) f.keyboard;
  mouse = moved refl (inr (refl, v.mouse)) f.mouse;
  joystick = moved refl (inr (refl, v.joystick)) f.joystick;
}

-- Any order of updates and services
pub data Run (l : Layout) (h : Hid) : Hid → Type 0 where
  start : Run l h h
  updates : {k m : Hid} → Run l h k → Updates l k m → Run l h m
  serves :
      {k : Hid}
      → Run l h k
      → (response : ℕ) (r : Registers) (busy : Busy) (now later : ℕ)
      → Leaves l k.usb (poll response (app l) r k.usb)
      → Run l h (service response l r busy now later k)

service-Fresh :
    (response : ℕ) (l : Layout) (r : Registers) (busy : Busy) (now later : ℕ) (h : Hid)
    → Leaves l h.usb (poll response (app l) r h.usb)
    → Fresh l h
    → Fresh l (service response l r busy now later h)
unfolding service
service-Fresh response l r busy now later h v f =
    let p : Hid = record h { usb = poll response (app l) r h.usb } in
    let g = polled-Fresh l p.usb h v f in
    if_cases {A = Hid} (Fresh l) (p.usb.device_state == configured)
      (joystick_part l busy.joystick
        (mouse_part l busy.mouse (keyboard_part l busy.keyboard now later p)))
      p
      (λ c.
        joystick_part-Fresh l busy.joystick _
          (mouse_part-Fresh l busy.mouse _ (keyboard_part-Fresh l busy.keyboard now later p g)))
      (λ c. g)

run-Fresh : (l : Layout) (h k : Hid) → Fresh l h → Run l h k → Fresh l k
run-Fresh l h k f start = f
run-Fresh l h k f (updates {k = m} r u) = Updates-Fresh l m k u (run-Fresh l h m f r)
run-Fresh l h k f (serves {k = m} r response regs busy now later v) =
    service-Fresh response l regs busy now later m v (run-Fresh l h m f r)

-- After any order of updates and services, a service that finds the device configured and the endpoints free
-- leaves the host with the newest reports: the last one sent on each endpoint is what is in memory. At the
-- start this holds or a report is due; the application sets the bit of each report it changes, and the
-- polls of the USB core leave the reports in memory alone.
pub run_reports :
    (l : Layout) (h k : Hid) (response : ℕ) (r : Registers) (now later : ℕ)
    → Fresh l h
    → Run l h k
    → Leaves l k.usb (poll response (app l) r k.usb)
    → (poll response (app l) r k.usb).device_state ≡ configured
    → Reported l (
        service response l r
          (record { keyboard = false; mouse = false; joystick = false })
          now
          later
          k)
unfolding service
run_reports l h k response r now later f run v e =
    let p : Hid = record k { usb = poll response (app l) r k.usb } in
    let g = polled-Fresh l p.usb k v (run-Fresh l h k f run) in
    if_cases {A = Hid} (Reported l) (p.usb.device_state == configured)
      (joystick_part l false (mouse_part l false (keyboard_part l false now later p))) p
      (λ c. joystick_part-Reported l _ (mouse_part-Last l _ (keyboard_part-Later l now later p g)))
      (λ c. absurd (ground (arith, c, e)))
