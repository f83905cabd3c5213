-- ===== src/Journal/Privacy.antt =====
-- What the journal keeps: internal/events/journal.go.
use kiosk_mate.Common.{
  ℕ, zero, suc, ◌-◌, ◌≤◌, ◌≡◌, refl, Bool, true, false, not, ◌&&◌, List, [], ◌∷◌, All, All-append,
  length, length-drop, length-take, drop, if◌then◌else◌, if-both, ltb, Text, text_eq, codes,
  trim_space, to_lower, arith,
}
use kiosk_mate.Config.Pages.{is_empty}
use kiosk_mate.Journal.{
  max_text, Details, JournalEvent, Journal, clean, is_secret, is_url_key, set_detail,
  clean_details_into, clean_details, trim_items, or_default, Report, event_of, record_event,
  record_all,
}

-- A detail without a secret in its key, and short.
abbrev pub IsPublicDetail : Text × Text → Type 0
IsPublicDetail (key, value) =
    (is_empty key ≡ false)
    × (is_secret (to_lower key) ≡ false)
    × (length key ≤ max_text)
    × (length value ≤ max_text)

-- An event that has only such details, a component and a status, and texts of at most 512 characters.
abbrev pub IsPublic : JournalEvent → Type 0
IsPublic e =
    All IsPublicDetail e.details
    × (is_empty e.component ≡ false)
    × (is_empty e.status ≡ false)
    × (length e.component ≤ max_text)
    × (length e.action ≤ max_text)
    × (length e.status ≤ max_text)
    × (length e.message ≤ max_text)

clean-short : (value : Text) → length (clean value) ≤ max_text
unfolding clean
clean-short value = omega (arith, length-take max_text (trim_space value))

set_detail-All :
    (key value : Text) (details : Details)
    → IsPublicDetail (key, value)
    → All IsPublicDetail details
    → All IsPublicDetail (set_detail key value details)
unfolding set_detail
set_detail-All key value [] h d = (h, tt)
set_detail-All key value ((k, v) ∷ details) h (d, ds) =
    if-both (All IsPublicDetail) (text_eq k key) (h, ds) (d, set_detail-All key value details h ds)

clean_details_into-All :
    (clean_url : Text → Text) (details result : Details)
    → All IsPublicDetail result
    → All IsPublicDetail (clean_details_into clean_url details result)
unfolding clean_details_into
clean_details_into-All clean_url [] result h = h
clean_details_into-All clean_url ((k, v) ∷ details) result h =
    clean_details_into-All clean_url details _
      (go (is_empty (clean k)) (is_secret (to_lower (clean k))) refl refl)
  where
    value : Text
    value = if is_url_key (to_lower (clean k)) then clean_url v else v

    go :
        (blank secret : Bool)
        → is_empty (clean k) ≡ blank
        → is_secret (to_lower (clean k)) ≡ secret
        → All IsPublicDetail
            (if not blank && not secret then set_detail (clean k) (clean value) result else result)
    go false false b s =
        set_detail-All (clean k) (clean value) result (b, s, clean-short k, clean-short value) h
    go false true b s = h
    go true _ b s = h

or_default-short :
    (fallback value : Text)
    → is_empty fallback ≡ false
    → length fallback ≤ max_text
    → (is_empty (or_default fallback (clean value)) ≡ false)
      × (length (or_default fallback (clean value)) ≤ max_text)
or_default-short fallback value f short = go (clean value) (clean-short value)
  where
    go :
        (v : Text)
        → length v ≤ max_text
        → (is_empty (or_default fallback v) ≡ false) × (length (or_default fallback v) ≤ max_text)
    go [] h = (f, short)
    go (c ∷ v) h = (refl, h)

event_of-IsPublic :
    (clean_url : Text → Text) (j : Journal) (r : Report) → IsPublic (event_of clean_url j r)
unfolding event_of clean_details
event_of-IsPublic clean_url j r =
    let (some_component, short_component) =
      or_default-short (codes "runtime") r.component refl (omega arith) in
    let (some_status, short_status) = or_default-short (codes "info") r.status refl (omega arith) in
    (
      clean_details_into-All clean_url r.details [] tt,
      some_component,
      some_status,
      short_component,
      clean-short r.action,
      short_status,
      clean-short r.message,
    )

All-drop {ℓ κ} : {A : Type ℓ} (P : A → Type κ) (n : ℕ) (xs : List A) → All P xs → All P (drop n xs)
All-drop P zero xs h = h
All-drop P (suc n) [] h = tt
All-drop P (suc n) (x ∷ xs) (h, hs) = All-drop P n xs hs

-- A journal of public events, no more than its limit.
abbrev pub IsJournal : Journal → Type 0
IsJournal j = All IsPublic j.items × (length j.items ≤ j.limit)

trim_items-IsJournal : (j : Journal) → All IsPublic j.items → IsJournal (trim_items j)
unfolding trim_items
trim_items-IsJournal j h = go (ltb j.limit (length j.items)) refl
  where
    short : ltb j.limit (length j.items) ≡ false → length j.items ≤ j.limit
    short e = ground arith

    go :
        (long : Bool)
        → ltb j.limit (length j.items) ≡ long
        → IsJournal
            (if long then record j { items = drop (length j.items - j.limit) j.items } else j)
    go true e = (
      All-drop IsPublic _ j.items h,
      ground (arith, length-drop (length j.items - j.limit) j.items),
    )
    go false e = (h, short e)

-- Whatever is reported: if the journal's events are public and no more than its limit, then so they stay.
-- No detail is kept whose key names a password, a token, a secret or a private key, every event has a
-- component and a status, and no text is longer than 512 characters.
pub record_all-IsJournal :
    (clean_url : Text → Text) (reports : List Report) (j : Journal)
    → IsJournal j
    → IsJournal (record_all clean_url reports j)
unfolding record_all record_event
record_all-IsJournal clean_url [] j h = h
record_all-IsJournal clean_url (r ∷ reports) j h = record_all-IsJournal clean_url reports _ (
    trim_items-IsJournal _ (
      All-append IsPublic j.items (event_of clean_url j r ∷ []) h.0
        (event_of-IsPublic clean_url j r, tt)))
