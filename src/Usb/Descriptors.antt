-- ===== src/Usb/Descriptors.antt =====
-- How much of a descriptor is sent.
use wixel_sdk.Base.{
  ℕ, ◌+◌, ◌*◌, ◌/◌, ◌%◌, ◌^◌, ◌≤◌, ◌≡◌, refl, ap, subst, ◌⊎◌, inl, inr, true, if◌then◌else◌, ◌==◌,
  ltb, arith, if_both, if_cases, get_or, length,
}
use wixel_sdk.Usb.Defs.{Usb, ControlState, idle, writing, reading, w_value, w_length}
use wixel_sdk.Usb.Requests.{
  App, limited, is_idle, word_in, descriptor_device_size, device, configuration, string,
  class_specific, get_descriptor,
}

-- The request is stalled, or no more than `n` bytes are to be sent.
abbrev pub Limited : ℕ → Usb → Type 0
Limited n s = (s.control ≡ idle) ⊎ (s.bytes_left ≤ n)

limited-Limited : (s : Usb) → Limited (w_length s) (limited s)
limited-Limited s = inr (
    if_cases {A = ℕ} (λ n. n ≤ w_length s) (ltb (w_length s) s.bytes_left) (w_length s) s.bytes_left
      (λ more. omega arith) (λ less. ground (arith, less)))

is_idle-≡ : (c : ControlState) → is_idle c ≡ true → c ≡ idle
is_idle-≡ idle h = refl
is_idle-≡ writing h = ground (arith, h)
is_idle-≡ reading h = ground (arith, h)

configuration-Limited :
    (app : App) (s : Usb) → s.control ≡ idle → Limited (w_length s) (configuration app s)
configuration-Limited app s h =
    let at = app.configuration_descriptor in
    let found : Usb = record s { pointer = at; bytes_left = word_in s (at + 2) } in
    if_both {x = limited found} {y = s} (Limited (w_length s)) (w_value s % 2 ^ 8 == 0)
      (limited-Limited found) (inl h)

string-Limited : (app : App) (s : Usb) → s.control ≡ idle → Limited (w_length s) (string app s)
string-Limited app s h =
    let index = w_value s % 2 ^ 8 in
    let at = get_or app.string_descriptors index 0 in
    let found : Usb = record s { pointer = at; bytes_left = get_or s.xdata at 0 } in
    if_both {x = limited found} {y = s} (Limited (w_length s))
      (ltb index (length app.string_descriptors)) (limited-Limited found) (inl h)

-- The application's handler of its own descriptors leaves the request in usbSetupPacket alone.
abbrev pub LeavesSetup : App → Type 0
LeavesSetup app = (s : Usb) → (app.class_descriptor_handler s).setup ≡ s.setup

class_specific-Limited :
    (app : App) (s : Usb) → LeavesSetup app → Limited (w_length s) (class_specific app s)
class_specific-Limited app s leaves =
    let s' = app.class_descriptor_handler s in
    let asked : w_length s' ≡ w_length s =
      ap (λ setup. get_or setup 6 0 + get_or setup (6 + 1) 0 * 2 ^ 8) (leaves s) in
    subst (λ n. Limited n (class_specific app s)) asked
      (if_cases (Limited (w_length s')) (is_idle s'.control) s' (limited s')
        (λ e. inl (is_idle-≡ s'.control e)) (λ e. limited-Limited s'))

-- A request for a descriptor is stalled, or sends no more than the wLength that the host has asked for. The
-- application's handler of its own descriptors may set up any transfer, but leaves usbSetupPacket alone.
pub get_descriptor-Limited :
    (app : App) (s : Usb)
    → LeavesSetup app
    → s.control ≡ idle
    → Limited (w_length s) (get_descriptor app s)
unfolding get_descriptor
get_descriptor-Limited app s leaves h =
    let kind = w_value s / 2 ^ 8 in
    let found : Usb = record s {
      pointer = app.device_descriptor;
      bytes_left = descriptor_device_size;
    } in
    let three = if kind == 3 then string app s else class_specific app s in
    let two = if kind == 2 then configuration app s else three in
    if_both {x = device app s} {y = two} (Limited (w_length s)) (kind == 1) (limited-Limited found)
      (if_both {x = configuration app s} {y = three} (Limited (w_length s)) (kind == 2)
        (configuration-Limited app s h)
        (if_both {x = string app s} {y = class_specific app s} (Limited (w_length s)) (kind == 3)
          (string-Limited app s h) (class_specific-Limited app s leaves)))
