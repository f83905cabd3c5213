-- ===== src/Signals/Wake.antt =====
-- No change is lost: internal/signals/signals.go.
use kiosk_mate.Common.{
  ◌≡◌, refl, sym, ap, ◌∙◌, Bool, true, false, Option, none, some, List, [], ◌∷◌, if◌then◌else◌,
  Text, text_eq, text_eq→eq, trim_space, arith,
}
use kiosk_mate.Config.Kiosk.{KioskConfig}
use kiosk_mate.Config.Inserts.Conditions.{inserts_where}
use kiosk_mate.Signals.{
  Store, is_same, set_value, value_of, note_presence, Told, was_set, was_present, tell, tell_all,
}

-- A store with no signal pending, whose values are those of another one.
abbrev IsQuietSince : Store → Store → Type 0
IsQuietSince s s' = (s.pending ≡ false) × ((key : Text) → s'.values key ≡ s.values key)

same_value : (old : Option Text) (value : Text) → is_same old value ≡ true → some value ≡ old
same_value none value h = cc
same_value (some old) value h = ap some (sym (text_eq→eq old value h))

tell-IsQuietSince :
    (told : Told) (s : Store) → (tell told s).pending ≡ false → IsQuietSince s (tell told s)
unfolding set_value note_presence
tell-IsQuietSince (was_set topic value) s h = (ground arith, λ t. go t (text_eq t key) refl)
  where
    key : Text
    key = trim_space topic

    unchanged : is_same (s.values key) value ≡ true
    unchanged = ground arith

    go :
        (t : Text) (b : Bool)
        → text_eq t key ≡ b
        → (if b then some value else s.values t) ≡ s.values t
    go t true e = same_value (s.values key) value unchanged ∙ ap s.values (sym (text_eq→eq t key e))
    go t false e = refl
tell-IsQuietSince (was_present at source) s h = (ground arith, λ t. refl)

tell_all-IsQuietSince :
    (tolds : List Told) (s : Store)
    → (tell_all tolds s).pending ≡ false
    → IsQuietSince s (tell_all tolds s)
unfolding tell_all
tell_all-IsQuietSince [] s h = (h, λ t. refl)
tell_all-IsQuietSince (told ∷ tolds) s h =
    let (quiet, same) = tell_all-IsQuietSince tolds (tell told s) h in
    let (quiet', same') = tell-IsQuietSince told s quiet in (quiet', λ t. same t ∙ same' t)

-- As long as no signal is pending, whatever values and presences the store is told, the inserts that its
-- values allow stay those of the last receive: a change that matters to them wakes the scheduler.
pub tell_all-inserts_where :
    (tolds : List Told) (s : Store) (k : KioskConfig)
    → (tell_all tolds s).pending ≡ false
    → inserts_where (value_of (tell_all tolds s)) k ≡ inserts_where (value_of s) k
unfolding value_of
tell_all-inserts_where tolds s k h =
    let (quiet, same) = tell_all-IsQuietSince tolds s h in
    ap (λ (lookup : Text → Option Text). inserts_where lookup k)
      (λ i. λ topic. same (trim_space topic) i)

-- The last value that a topic was set to is the one that is read, whatever white space surrounds the topic,
-- and the other topics keep theirs.
pub value_of-set_value :
    (topic value other : Text) (s : Store)
    → value_of (set_value topic value s) other
      ≡ (if text_eq (trim_space other) (trim_space topic) then some value else value_of s other)
unfolding value_of set_value
value_of-set_value topic value other s = refl
