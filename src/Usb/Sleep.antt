-- ===== src/Usb/Sleep.antt =====
-- libraries/src/usb/usb.c: usbSleep. The registers for the wake-up interrupt are a record; what they read
-- after the processor has slept is given for each round of the loop.
use wixel_sdk.Base.{
  ℕ, ◌≡◌, ◌≢◌, refl, Bool, true, false, not, ◌&&◌, ◌||◌, List, [], ◌∷◌, Option, none, some, arith,
  if◌then◌else◌, if_cases, truth, bit_and, bit_or,
}
use wixel_sdk.Usb.Defs.{Usb}

-- `usbSuspended`
unfoldable pub suspended : Usb → Bool
suspended s = s.suspend_mode

pub record Power : Type 0 where
  pub pictl : ℕ
  pub p0ie : Bool
  pub p0ifg : ℕ
  pub p0if : Bool
  pub sleep : ℕ
  pub pcon : ℕ
  pub p1_0 : Bool
  pub usb : Usb

-- A round of the loop: SLEEP after the mode is set, P0IFG after waking up, whether the application's
-- interrupt routine has ended the suspend mode, and vinPowerPresent.
pub record Round : Type 0 where
  pub sleep : ℕ
  pub p0ifg : ℕ
  pub resumed : Bool
  pub vin : Bool

abbrev prepare : Power → Power
prepare p = record p { p0ie = false; pictl = bit_and (bit_or p.pictl 16) 254 }

-- The body of the loop
unfoldable pub nap : Round → Power → Power
nap r p = record p {
  p0ifg = r.p0ifg;
  p0if = false;
  p0ie = false;
  sleep = r.sleep;
  pcon = if truth (bit_and r.sleep 3) then bit_or p.pcon 1 else p.pcon;
  p1_0 = if truth (bit_and r.sleep 3) then false else p.p1_0;
  usb = record (p.usb) {
    suspend_mode = if truth (bit_and r.p0ifg 0x80) || r.resumed then false else p.usb.suspend_mode;
  };
}

-- `do ... while(usbSuspendMode && !vinPowerPresent());`, `none` if the rounds end first
unfoldable pub naps : List Round → Power → Option Power
unfolding nap
naps [] p = none
naps (r ∷ rounds) p =
    let q = nap r p in
    let rest = naps rounds q in if q.usb.suspend_mode && not r.vin then rest else some q

-- The wait for the oscillator: bit 6 of SLEEP at each reading
abbrev pub stable : List ℕ → Power → Option Power
stable [] p = none
stable (sleep ∷ readings) p =
    let rest = stable readings p in
    if truth (bit_and sleep 64) then some (record p { sleep = sleep }) else rest

abbrev pub then_stable : List ℕ → Option Power → Option Power
then_stable readings none = none
then_stable readings (some p) = stable readings p

abbrev restored : Power → Option Power → Option Power
restored saved none = none
restored saved (some p) = some (record p { pictl = saved.pictl; p0ie = saved.p0ie })

-- `usbSleep`
unfoldable pub usb_sleep : List Round → List ℕ → Power → Option Power
unfolding naps
usb_sleep rounds readings p = restored p (then_stable readings (naps rounds (prepare p)))

-- Some round ends the sleep: a resume on the bus, an interrupt routine, or power on VIN.
abbrev pub wakes : List Round → Bool
wakes [] = false
wakes (r ∷ rounds) = truth (bit_and r.p0ifg 0x80) || r.resumed || r.vin || wakes rounds

abbrev pub settles : List ℕ → Bool
settles [] = false
settles (sleep ∷ readings) = truth (bit_and sleep 64) || settles readings

naps-ends : (rounds : List Round) (p : Power) → wakes rounds ≡ true → naps rounds p ≢ none
unfolding naps nap
naps-ends [] p h = ground (arith, h)
naps-ends (r ∷ rounds) p h =
    if_cases (λ o. o ≢ none) ((nap r p).usb.suspend_mode && not r.vin) (naps rounds (nap r p))
      (some (nap r p)) (λ c. naps-ends rounds (nap r p) (ground (arith, h, c)))
      (λ c e. ground (arith, e))

stable-ends : (readings : List ℕ) (p : Power) → settles readings ≡ true → stable readings p ≢ none
stable-ends [] p h = ground (arith, h)
stable-ends (sleep ∷ readings) p h =
    if_cases (λ o. o ≢ none) (truth (bit_and sleep 64)) (some (record p { sleep = sleep }))
      (stable readings p) (λ c e. ground (arith, e))
      (λ c. stable-ends readings p (ground (arith, h, c)))

then_stable-ends :
    (readings : List ℕ) (o : Option Power)
    → settles readings ≡ true
    → o ≢ none
    → then_stable readings o ≢ none
then_stable-ends readings none h n = absurd (n refl)
then_stable-ends readings (some p) h n = stable-ends readings p h

restored-ends : (saved : Power) (o : Option Power) → o ≢ none → restored saved o ≢ none
restored-ends saved none n = absurd (n refl)
restored-ends saved (some p) n = λ e. ground (arith, e)

-- usbSleep returns once something wakes the device and the oscillator is stable.
pub usb_sleep-ends :
    (rounds : List Round) (readings : List ℕ) (p : Power)
    → wakes rounds ≡ true
    → settles readings ≡ true
    → usb_sleep rounds readings p ≢ none
unfolding usb_sleep
usb_sleep-ends rounds readings p w h =
    restored-ends p _
      (then_stable-ends readings (naps rounds (prepare p)) h (naps-ends rounds (prepare p) w))

abbrev Restores : Power → Option Power → Type 0
Restores saved none = Unit
Restores saved (some p) = (p.pictl ≡ saved.pictl) × (p.p0ie ≡ saved.p0ie)

-- It leaves the registers of the wake-up interrupt as they were.
pub usb_sleep-Restores :
    (rounds : List Round) (readings : List ℕ) (p : Power) → Restores p (usb_sleep rounds readings p)
unfolding usb_sleep
usb_sleep-Restores rounds readings p = kept (then_stable readings (naps rounds (prepare p)))
  where
    kept : (o : Option Power) → Restores p (restored p o)
    kept none = tt
    kept (some q) = (refl, refl)
