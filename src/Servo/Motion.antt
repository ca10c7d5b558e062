-- ===== src/Servo/Motion.antt =====
-- How a servo moves to its target, and what its pulse register holds.
use wixel_sdk.Base.{
  ℕ, zero, suc, ◌+◌, ◌-◌, ◌*◌, ◌%◌, ◌^◌, ◌≤◌, ◌<◌, ◌≡◌, ◌⊎◌, ◌↔◌, refl, ap, ◌∙◌, true, arith,
}
use wixel_sdk.Servo.{ServoData, next_position, update_servo}

abbrev pub distance : ServoData → ℕ
distance d = (d.target - d.position) + (d.position - d.target)

-- A servo that moves: a speed limit, and a position that is not the disabled 0 unless it is the target.
pub record IsMoving (d : ServoData) : Type 0 where
  pub limited : 0 < d.speed
  pub placed : (0 < d.position) ⊎ (d.position ≡ d.target)
  pub position_word : d.position < 2 ^ 16
  pub target_word : d.target < 2 ^ 16

update_step :
    (d : ServoData)
    → IsMoving d
    → IsMoving (update_servo d)
      × (distance (update_servo d) ≡ distance d - d.speed)
      × ((update_servo d).target ≡ d.target)
      × ((update_servo d).speed ≡ d.speed)
unfolding update_servo
update_step d h = ground arith

-- `n` servo periods with the target unchanged.
pub periods : ℕ → ServoData → ServoData
periods zero d = d
periods (suc n) d = periods n (update_servo d)

periods_step :
    (n : ℕ) (d : ServoData)
    → IsMoving d
    → (distance (periods n d) ≡ distance d - n * d.speed) × ((periods n d).target ≡ d.target)
unfolding periods
periods_step zero d h = (omega arith, refl)
periods_step (suc n) d h =
    let (m, near, same, speed) = update_step d h in
    let ih = periods_step n (update_servo d) m in
    let gap : distance (periods n (update_servo d)) ≡ distance (update_servo d) - n * d.speed =
      ih.0 ∙ ap (λ s. distance (update_servo d) - n * s) speed in
    (omega (arith, gap, near, suc_times n d.speed), ih.1 ∙ same)
  where
    suc_times : (k s : ℕ) → suc k * s ≡ s + k * s
    suc_times k s = omega arith

-- A servo with a speed limit comes closer to its target by the limit in each period: after `n` periods
-- the distance left is the distance at first less `n` times the limit, or 0 if that covers it.
pub periods_lem :
    (n : ℕ) (d : ServoData) → IsMoving d → distance (periods n d) ≡ distance d - n * d.speed
periods_lem n d h = (periods_step n d h).0

-- Once `n` periods at the speed limit cover the distance, a moving servo is at its target.
pub arrives :
    (n : ℕ) (d : ServoData)
    → IsMoving d
    → distance d ≤ n * d.speed
    → (periods n d).position ≡ d.target
arrives n d h far = let s = periods_step n d h in omega (arith, s.0, s.1)

-- The `moving` flag of a period is set exactly if the distance before it was at least the speed
-- limit, for a moving servo that is not disabled.
pub next_position_flag :
    (d : ServoData)
    → IsMoving d
    → 0 < d.position
    → ((next_position d).1 ≡ true) ↔ (d.speed ≤ distance d)
unfolding next_position
next_position_flag d h p = (λ e. ground arith, λ e. ground arith)

-- For a moving servo, after a period the pulse register and the position add up to a full timer period, or are both 0.
pub position_reg-update_servo :
    (d : ServoData)
    → IsMoving d
    → ((update_servo d).position_reg + (update_servo d).position) % 2 ^ 16 ≡ 0
unfolding update_servo
position_reg-update_servo d h = ground arith
