-- ===== src/Supervisor/Recovery/Delay.antt =====
-- The backoff after failed recoveries.
use kiosk_mate.Common.{ℕ, zero, suc, ◌-◌, ◌*◌, ◌≤◌, ◌≡◌, refl, min, ltb, if◌then◌else◌, arith}
use kiosk_mate.Supervisor.Window.{second, minute}
use kiosk_mate.Supervisor.Recovery.{recovery_delay}

delay_capped : (n : ℕ) → 8 ≤ n → recovery_delay n ≡ 10 * minute
unfolding recovery_delay
delay_capped n h =
    let last : min ((if ltb n 1 then 1 else n) - 1) 7 ≡ 7 = ground arith in rw last (ground arith)

delay_step : (n : ℕ) → recovery_delay (suc (suc n)) ≡ min (2 * recovery_delay (suc n)) (10 * minute)
unfolding recovery_delay
delay_step zero = refl
delay_step (suc zero) = refl
delay_step (suc (suc zero)) = refl
delay_step (suc (suc (suc zero))) = refl
delay_step (suc (suc (suc (suc zero)))) = refl
delay_step (suc (suc (suc (suc (suc zero))))) = refl
delay_step (suc (suc (suc (suc (suc (suc zero)))))) = refl
delay_step (suc (suc (suc (suc (suc (suc (suc n))))))) =
    let eight : ℕ = suc (suc (suc (suc (suc (suc (suc (suc n))))))) in
    rw (delay_capped (suc eight) (omega arith), delay_capped eight (omega arith))

-- The delay is five seconds for the first attempt and doubles with each further one until it stays at
-- ten minutes from the eighth attempt on.
pub recovery_delay_doubles :
    (n : ℕ)
    → (recovery_delay 0 ≡ 5 * second)
      × (recovery_delay 1 ≡ 5 * second)
      × (recovery_delay (suc (suc n)) ≡ min (2 * recovery_delay (suc n)) (10 * minute))
unfolding recovery_delay
recovery_delay_doubles n = (refl, refl, delay_step n)
