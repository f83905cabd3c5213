-- ===== src/Config/Inserts/Calendars.antt =====
-- The calendar that `InsertSlots` of internal/config/inserts.go walks through.
use kiosk_mate.Common.{
  ℕ, zero, suc, ◌+◌, ◌-◌, ◌*◌, ◌/◌, ◌≤◌, ◌<◌, ◌≡◌, inl, inr, subst, false, ltb, leb, ltb_iff,
  leb_iff, Bool-cases, arith,
}
use kiosk_mate.Supervisor.Window.{hour}
use kiosk_mate.Config.Kiosk.{PageInsert}
use kiosk_mate.Config.Inserts.{Calendar, duration, day_fuel}

abbrev pub midnight : Calendar → ℕ → ℕ
midnight c n = (c.day n).at_minute 0

-- Every instant is in its day, a day lasts at least an hour, its minutes are within it, and no clock
-- change skips a midnight, so that the days that follow a midnight and go before it are those of
-- midnights. Times begin with day 0, which has no day before it.
abbrev pub IsCalendar : Calendar → Type 0
IsCalendar c =
    ((t : ℕ) → (midnight c (c.day_of t) ≤ t) × (t < midnight c (c.day_of t + 1)))
    × ((n : ℕ) → midnight c n + hour ≤ midnight c (n + 1))
    × ((n m : ℕ)
        → m < 24 * 60
        → (midnight c n ≤ (c.day n).at_minute m) × ((c.day n).at_minute m ≤ midnight c (n + 1)))
    × ((n : ℕ) → c.day_of (midnight c n) ≡ n)
    × ((n : ℕ) → c.next_day (midnight c n) ≡ midnight c (n + 1))
    × ((n : ℕ) → c.day_before (midnight c n) ≡ midnight c (n - 1))

plus_hour : (a b k : ℕ) → a + k * hour ≤ b → a + suc k * hour ≤ b + hour
plus_hour a b k h = omega (arith, h)

chain : {x y z : ℕ} → x ≤ y → y ≤ z → x ≤ z
chain h g = omega (arith, h, g)

midnight_mono :
    (c : Calendar)
    → ((n : ℕ) → midnight c n + hour ≤ midnight c (n + 1))
    → (n k : ℕ) → midnight c n + k * hour ≤ midnight c (n + k)
midnight_mono c lasts n zero =
    let same : n ≡ n + 0 = omega arith in
    subst (λ x. midnight c n + 0 * hour ≤ midnight c x) same (omega arith)
midnight_mono c lasts n (suc k) =
    let next : n + k + 1 ≡ n + suc k = omega arith in
    let grown = plus_hour (midnight c n) (midnight c (n + k)) k (midnight_mono c lasts n k) in
    subst (λ x. midnight c n + suc k * hour ≤ midnight c x) next (chain grown (lasts (n + k)))

-- A later day begins later.
midnight-le :
    (c : Calendar)
    → ((n : ℕ) → midnight c n + hour ≤ midnight c (n + 1))
    → (n m : ℕ) → n ≤ m
    → midnight c n ≤ midnight c m
midnight-le c lasts n m le =
    let same : n + (m - n) ≡ m = omega (arith, le) in
    subst (λ x. midnight c n ≤ midnight c x) same
      (drop_hours ((m - n) * hour) (midnight_mono c lasts n (m - n)))
  where
    drop_hours : {x z : ℕ} (y : ℕ) → x + y ≤ z → x ≤ z
    drop_hours y h = omega (arith, h)

duration-le : (p : PageInsert) → duration p ≤ hour
unfolding duration
duration-le p = ground arith

-- The hours that the fuel counts reach beyond `to`.
enough_hours : (from to a b : ℕ) → from < a → a + ((to - from) / hour + 1) * hour ≤ b → to ≤ b
enough_hours from to a b h g = omega (arith, h, g)

module _ (c : Calendar) (law : IsCalendar c) (from to : ℕ) (p : PageInsert) (d m : ℕ)
    (minute : m < 24 * 60) where
  pub begins_before : (c.day d).at_minute m < to → (e : ℕ) → e ≤ d → midnight c e < to
  begins_before o e le = strict (midnight-le c law.1 e d le) (law.2 d m minute).0 o
    where
      strict : {x y z w : ℕ} → x ≤ y → y ≤ z → z < w → x < w
      strict h g f = omega (arith, h, g, f)

  pub not_earlier : from < (c.day d).at_minute m + duration p → c.day_of from - 1 ≤ d
  not_earlier o = elim (Bool-cases (leb (c.day_of from - 1) d)) [
    | inl le ↦ (leb_iff (c.day_of from - 1) d).0 le
    | inr gt ↦ absurd (early (above gt))
  ]
    where
      above : leb (c.day_of from - 1) d ≡ false → d + 2 ≤ c.day_of from
      above h = ground arith

      clash : {s n t u w : ℕ} → s ≤ n → n + hour ≤ t → t ≤ u → w ≤ hour → u < s + w → ⊥
      clash h1 h2 h3 h4 h5 = omega (arith, h1, h2, h3, h4, h5)

      early : d + 2 ≤ c.day_of from → ⊥
      early h =
          clash (law.2 d m minute).1
            (chain (law.1 (d + 1))
              (midnight-le c law.1 (d + 1 + 1) (c.day_of from) (omega (arith, h))))
            (law.0 from).0 (duration-le p) o

  pub not_later : (c.day d).at_minute m < to → d < c.day_of from - 1 + day_fuel from to
  not_later o = elim (Bool-cases (ltb d (c.day_of from - 1 + day_fuel from to))) [
    | inl lt ↦ (ltb_iff d (c.day_of from - 1 + day_fuel from to)).0 lt
    | inr ge ↦ absurd (late (above ge))
  ]
    where
      hours : ℕ
      hours = (to - from) / hour + 1

      above : ltb d (c.day_of from - 1 + day_fuel from to) ≡ false → c.day_of from + 1 + hours ≤ d
      above h = ground arith

      clash : {x y z : ℕ} → x ≤ y → y ≤ z → z < x → ⊥
      clash h1 h2 h3 = omega (arith, h1, h2, h3)

      late : c.day_of from + 1 + hours ≤ d → ⊥
      late h =
          clash
            (enough_hours from to _ _ (law.0 from).1
              (midnight_mono c law.1 (c.day_of from + 1) hours))
            (chain (midnight-le c law.1 (c.day_of from + 1 + hours) d h) (law.2 d m minute).0) o
