-- ===== src/Versions/Newest.antt =====
-- Which release `newestRelease` of internal/updater/updater.go picks.
use kiosk_mate.Common.{◌≡◌, Bool, true, false, ◌&&◌, Option, none, some, List, All, Memᴰ}
use kiosk_mate.Versions.{
  Order, before, same, after, without_v, Release, is_candidate, compare_release,
}
use kiosk_mate.Versions.Preorder.{IsPlainVersion}

abbrev pub is_after : Order → Bool
is_after after = true
is_after same = false
is_after before = false

-- A candidate of a higher version than `best`.
abbrev pub beats : Bool → Release → Release → Bool
beats p best r = is_candidate p r && is_after (compare_release r best)

-- The answer is a candidate of the list that none of the list beats, and there is none only if the
-- list has no candidate.
abbrev pub IsNewest : Bool → List Release → Option Release → Type 0
IsNewest p releases none = All (λ r. is_candidate p r ≡ false) releases
IsNewest p releases (some best) =
    Memᴰ best releases × (is_candidate p best ≡ true) × All (λ r. beats p best r ≡ false) releases

-- A release whose version's numbers did not overflow into the sign.
abbrev pub IsPlainRelease : Release → Type 0
IsPlainRelease r = IsPlainVersion (without_v r.tag_name)

module _ (p : Bool) where
  -- The answer, which is a plain release.
  abbrev Picked : List Release → Option Release → Type 0
  Picked rs none = IsNewest p rs none
  Picked rs (some b) = IsPlainRelease b × IsNewest p rs (some b)
