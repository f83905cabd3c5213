-- ===== src/Config/Inserts/Accepted.antt =====
-- What the validation of inserts ensures: `validateInserts` of internal/config/inserts.go.
use kiosk_mate.Common.{
  ℕ, ◌+◌, ◌-◌, ◌*◌, ◌%◌, ◌^◌, ◌≤◌, ◌<◌, ◌≡◌, refl, sym, ◌∙◌, Bool, true, false, not, ◌||◌, Option,
  none, some, List, [], ◌∷◌, All, if◌then◌else◌, member_text, ltb, leb, ◌==◌, sort, compact,
  sort-Mem, compact-Mem, Memᴰ, Text, ℤ, pos, negsuc, leb_ℤ, ltb_ℤ, arith,
}
use kiosk_mate.Supervisor.Window.{second, hour}
use kiosk_mate.Config.Clock.{
  valid_clock, insert_clock, sun_clock, sun_resolved, Sun, is_some, valid_schedule_clock,
  resolve_clock,
}
use kiosk_mate.Config.Clock.Parse.{clocks_agree}
use kiosk_mate.Config.Kiosk.{KioskConfig, PageInsert, Repeat, interval, hourly, times, other_repeat}
use kiosk_mate.Config.Rules.{valid_rule_id, between, fails, ◌or_else◌, page_ids}
use kiosk_mate.Config.Rules.Accepted.{or_else-none}
use kiosk_mate.Config.Inserts.{
  slot_minutes, steps, hours_from, resolved, interval_minutes, hourly_minutes, duration, int64,
  nanoseconds, at_most_hour,
}
use kiosk_mate.Config.Inserts.Validation.{
  validate_insert, validate_inserts_from, validate_inserts, validate_repeat, some_times,
  validate_times, bad_seconds, bad_time, bad_id, used_twice, unknown_page, bad_duration,
}

-- A clock text that the configuration accepts for an insert is read as a minute, on every day.
valid_schedule_clock-resolves :
    (sun : Option (ℕ × ℕ)) (at : Text)
    → valid_schedule_clock at ≡ true
    → (m : ℕ) × (resolve_clock sun at ≡ some m)
unfolding valid_schedule_clock resolve_clock
valid_schedule_clock-resolves sun at h =
    go (insert_clock at) (sun_clock at) (valid_clock at) h (λ v. plain v)
  where
    plain : valid_clock at ≡ true → (n : ℕ) × (insert_clock at ≡ some n)
    plain v = let (n, e, same, lt) = (clocks_agree at).0 v in (n, e)

    go :
        (clock : Option ℕ) (moved : Option (Sun × Bool × ℕ)) (valid : Bool)
        → (valid || is_some moved) ≡ true
        → (valid ≡ true → (n : ℕ) × (clock ≡ some n))
        → (m : ℕ) × ((elim clock as (λ r. Option ℕ) [
          | some n ↦ some n
          | none ↦ sun_resolved sun moved
        ])
            ≡ some m)
    go (some n) moved valid e f = (n, refl)
    go none (some (event, before, offset)) valid e f = (_, refl)
    go none none true e f = let (n, g) = f refl in cc
    go none none false e f = cc

resolved-Mem :
    (sun : Option (ℕ × ℕ)) (at : Text) (texts : List Text) (m : ℕ)
    → resolve_clock sun at ≡ some m
    → Memᴰ m (resolved sun (at ∷ texts))
unfolding resolved
resolved-Mem sun at texts m h = go (resolve_clock sun at) h
  where
    go :
        (read : Option ℕ)
        → read ≡ some m
        → Memᴰ m (elim read as (λ r. List ℕ) [
          | none ↦ resolved sun texts
          | some n ↦ n ∷ resolved sun texts
        ])
    go none e = cc
    go (some n) e = let same : m ≡ n = cc in Memᴰ.head same

-- An insert that has a minute to start at on a day with this sunrise and sunset, before its days and its
-- window are considered.
abbrev pub Starts : Option (ℕ × ℕ) → PageInsert → Type 0
Starts sun p = (m : ℕ) × Memᴰ m (slot_minutes p sun)

validate_repeat-Starts :
    (sun : Option (ℕ × ℕ)) (p : PageInsert) → validate_repeat p p.repeat ≡ none → Starts sun p
unfolding validate_repeat validate_times slot_minutes interval_minutes hourly_minutes steps
    hours_from
validate_repeat-Starts sun p h = go p.repeat h
  where
    at_interval :
        (every : ℤ) → between 1 (24 * 60) every ≡ true → (m : ℕ) × Memᴰ m (interval_minutes every)
    at_interval (negsuc n) e = cc
    at_interval (pos every) e = (0, spaced (every == 0) (λ z. ground arith))
      where
        spaced :
            (zero_minutes : Bool)
            → (zero_minutes ≡ true → ⊥)
            → Memᴰ 0 (if zero_minutes then [] else steps every (24 * 60) 0)
        spaced false f = Memᴰ.head refl
        spaced true f = absurd (f refl)

    at_hour : (minute : ℤ) → between 0 59 minute ≡ true → (m : ℕ) × Memᴰ m (hourly_minutes minute)
    at_hour (negsuc n) e = cc
    at_hour (pos minute) e = (0 * 60 + minute, fits (leb minute 59) (ground arith))
      where
        fits :
            (small : Bool)
            → small ≡ true
            → Memᴰ (0 * 60 + minute) (if small then hours_from minute 24 0 else [])
        fits true f = Memᴰ.head refl
        fits false f = cc

    at_times :
        (texts : List Text)
        → (some_times texts or_else validate_times texts) ≡ none
        → (m : ℕ) × Memᴰ m (compact (sort ltb (resolved sun texts)))
    at_times [] e = cc
    at_times (at ∷ texts) e =
        let (m, read) = valid_schedule_clock-resolves sun at (first e) in
        (m, compact-Mem m _ (sort-Mem ltb m _ (resolved-Mem sun at texts m read)))
      where
        first :
            (fails (not (valid_schedule_clock at)) bad_time or_else validate_times texts) ≡ none
            → valid_schedule_clock at ≡ true
        first f = ground arith

    go :
        (repeat : Repeat)
        → validate_repeat p repeat ≡ none
        → Starts sun (record p { repeat = repeat })
    go interval e = at_interval p.every_minutes (ground arith)
    go hourly e = at_hour p.minute (ground arith)
    go times e = at_times p.times e
    go other_repeat e = cc

-- The seconds are an int64 number of nanoseconds: at most 292 years.
abbrev pub InInt64 : PageInsert → Type 0
InInt64 p = leb_ℤ p.duration_seconds (pos 9_223_372_036) ≡ true

-- What the validation says of an insert: it has a minute to start at on every day that its days and its
-- window leave it, and if its seconds do not overflow as nanoseconds, it shows for 5 seconds to an hour.
abbrev pub IsAcceptedInsert : PageInsert → Type 0
IsAcceptedInsert p =
    ((sun : Option (ℕ × ℕ)) → Starts sun p)
    × (InInt64 p → (5 * second ≤ duration p) × (duration p ≤ hour))

int64-small : (n : ℕ) → n < 2 ^ 63 → int64 n ≡ pos n
int64-small n h = go (n % 2 ^ 64) (omega (arith, h))
  where
    go :
        (low : ℕ)
        → low ≡ n
        → (if ltb low (2 ^ 63) then pos low else negsuc (2 ^ 64 - 1 - low)) ≡ pos n
    go low e = rw e (ground arith)

left_false : (x y : Bool) → (x || y) ≡ false → x ≡ false
left_false false y h = refl
left_false true y h = cc

bad_seconds-duration :
    (p : PageInsert)
    → InInt64 p
    → bad_seconds p.duration_seconds ≡ false
    → (5 * second ≤ duration p) × (duration p ≤ hour)
unfolding duration nanoseconds
bad_seconds-duration p small h = go p.duration_seconds small h
  where
    go :
        (n : ℤ)
        → leb_ℤ n (pos 9_223_372_036) ≡ true
        → bad_seconds n ≡ false
        → (5 * second ≤ at_most_hour (nanoseconds n)) × (at_most_hour (nanoseconds n) ≤ hour)
    go (pos n) s e =
        let short : n ≤ 9_223_372_036 = ground arith in
        let same = int64-small (n * second) (omega (arith, short)) in
        let enough : 5 ≤ n = ground arith in
        let limited : ltb_ℤ (pos hour) (int64 (n * second)) ≡ false = ground arith in
        rw same (omega (arith, enough), omega arith)
    go (negsuc n) s e =
        let few : ltb_ℤ (negsuc n) (pos 5) ≡ true = ground arith in
        let clash : true ≡ false = sym few ∙ left_false _ _ e in absurd (cc clash)

validate_insert-IsAcceptedInsert :
    (p : PageInsert) (seen ids : List Text) → validate_insert p seen ids ≡ none → IsAcceptedInsert p
unfolding validate_insert
validate_insert-IsAcceptedInsert p seen ids h =
    let (bad, h1) = or_else-none (fails (not (valid_rule_id p.id)) bad_id) _ h in
    let (used, h2) = or_else-none (fails (member_text p.id seen) used_twice) _ h1 in
    let (page, h3) = or_else-none (fails (not (member_text p.page_id ids)) unknown_page) _ h2 in
    let (repeat, h4) = or_else-none (validate_repeat p p.repeat) _ h3 in
    let (long, h5) = or_else-none (fails (bad_seconds p.duration_seconds) bad_duration) _ h4 in
    (
      λ sun. validate_repeat-Starts sun p repeat,
      λ small. bad_seconds-duration p small (accepted (bad_seconds p.duration_seconds) long),
    )
  where
    accepted : (bad : Bool) → fails bad bad_duration ≡ none → bad ≡ false
    accepted false e = refl
    accepted true e = cc

validate_inserts_from-All :
    (inserts : List PageInsert) (seen ids : List Text)
    → validate_inserts_from inserts seen ids ≡ none
    → All IsAcceptedInsert inserts
unfolding validate_inserts_from
validate_inserts_from-All [] seen ids h = tt
validate_inserts_from-All (p ∷ inserts) seen ids h =
    let (here, later) = or_else-none (validate_insert p seen ids) _ h in
    (
      validate_insert-IsAcceptedInsert p seen ids here,
      validate_inserts_from-All inserts (p.id ∷ seen) ids later,
    )

-- If the inserts of a configuration pass their validation, then each of them has, whenever the sun rises
-- and sets, a minute of the day to start at, before its days and its window are considered, and if its
-- seconds do not overflow as nanoseconds of an int64, it shows for 5 seconds to an hour.
pub validate_inserts-All :
    (k : KioskConfig) → validate_inserts k ≡ none → All IsAcceptedInsert k.inserts
unfolding validate_inserts
validate_inserts-All k h = validate_inserts_from-All k.inserts [] (page_ids k.pages) h
