-- ===== src/Journal.antt =====
-- The journal of events: internal/events/journal.go, without the file that it appends to. An id is the
-- time and the count that its text holds, a map is a list of keys and values, and a text is cut after 512
-- characters where the source counts bytes. A journal that is nil is not modelled. `url.Parse` and what
-- `cleanURL` makes of it is the parameter `clean_url`.
pub mod Privacy
use kiosk_mate.Common.{
  ℕ, ◌+◌, ◌-◌, ◌%◌, ◌^◌, Bool, true, false, not, ◌&&◌, ◌||◌, Option, none, some, List, [], ◌∷◌, map,
  ◌++◌, ◌==◌, ltb, if◌then◌else◌, length, take, drop, Text, codes, text_eq, trim_space, to_lower,
  has_prefix, ℤ, pos, negsuc,
}
use kiosk_mate.Config.Pages.{is_empty}

abbrev pub max_text : ℕ
max_text = 512

abbrev pub default_items : ℕ
default_items = 500

abbrev pub Details : Type 0
Details = List (Text × Text)

pub record JournalEvent : Type 0 where
  pub id : ℕ × ℕ
  pub at : ℕ
  pub component : Text
  pub action : Text
  pub status : Text
  pub message : Text
  pub duration : ℕ
  pub details : Details

pub record Journal : Type 0 where
  pub limit : ℕ
  pub items : List JournalEvent
  pub seq : ℕ

-- `strings.Contains`
unfoldable pub contains : Text → Text → Bool
contains part [] = has_prefix part []
contains part (c ∷ s) = has_prefix part (c ∷ s) || contains part s

unfoldable pub clean : Text → Text
clean value = take max_text (trim_space value)

abbrev pub is_secret : Text → Bool
is_secret key =
    contains (codes "password") key
    || contains (codes "token") key
    || contains (codes "secret") key
    || contains (codes "private_key") key

abbrev pub is_url_key : Text → Bool
is_url_key key = contains (codes "url") key || contains (codes "uri") key

-- `result[key] = value`
unfoldable pub set_detail : Text → Text → Details → Details
set_detail key value [] = (key, value) ∷ []
set_detail key value ((k, v) ∷ details) =
    let rest = set_detail key value details in
    if text_eq k key then (key, value) ∷ details else (k, v) ∷ rest

unfoldable pub clean_details_into : (Text → Text) → Details → Details → Details
clean_details_into clean_url [] result = result
clean_details_into clean_url ((k, v) ∷ details) result =
    let key = clean k in
    let lower = to_lower key in
    let value = if is_url_key lower then clean_url v else v in
    clean_details_into clean_url details (
      if not (is_empty key) && not (is_secret lower)
      then set_detail key (clean value) result
      else result)

unfoldable pub clean_details : (Text → Text) → Details → Details
unfolding clean_details_into
clean_details clean_url details = clean_details_into clean_url details []

unfoldable pub trim_items : Journal → Journal
trim_items j =
    if ltb j.limit (length j.items)
    then record j { items = drop (length j.items - j.limit) j.items }
    else j

abbrev pub or_default : Text → Text → Text
or_default fallback value = if is_empty value then fallback else value

-- What `Record` and `RecordDuration` are told, at a time; `Record` has the duration 0.
pub record Report : Type 0 where
  pub at : ℕ
  pub component : Text
  pub action : Text
  pub status : Text
  pub message : Text
  pub duration : ℕ
  pub details : Details

unfoldable pub event_of : (Text → Text) → Journal → Report → JournalEvent
unfolding clean clean_details
event_of clean_url j r = record {
  id = (r.at, (j.seq + 1) % 2 ^ 64);
  at = r.at;
  component = or_default (codes "runtime") (clean r.component);
  action = clean r.action;
  status = or_default (codes "info") (clean r.status);
  message = clean r.message;
  duration = r.duration;
  details = clean_details clean_url r.details;
}

unfoldable pub record_event : (Text → Text) → Report → Journal → Journal
unfolding event_of trim_items
record_event clean_url r j =
    trim_items
      (record j { items = j.items ++ event_of clean_url j r ∷ []; seq = (j.seq + 1) % 2 ^ 64 })

unfoldable pub record_all : (Text → Text) → List Report → Journal → Journal
record_all clean_url [] j = j
record_all clean_url (r ∷ reports) j = record_all clean_url reports (record_event clean_url r j)

-- The events of the lines that are read; `none` is a line that is not an event.
unfoldable pub known_events : List (Option JournalEvent) → List JournalEvent
known_events [] = []
known_events (none ∷ lines) = known_events lines
known_events (some e ∷ lines) =
    let rest = known_events lines in if is_empty e.component then rest else e ∷ rest

abbrev pub limit_of : ℤ → ℕ
limit_of (pos n) = if n == 0 then default_items else n
limit_of (negsuc n) = default_items

-- `Open`, for a file that can be read, or that does not exist and has no lines.
unfoldable pub open_journal : ℤ → List (Option JournalEvent) → Journal
unfolding known_events trim_items
open_journal limit lines =
    trim_items (record { limit = limit_of limit; items = known_events lines; seq = 0 })

abbrev clean_event : (Text → Text) → JournalEvent → JournalEvent
clean_event clean_url e = record e { details = clean_details clean_url e.details }

abbrev recent_limit : ℤ → ℕ → ℕ
recent_limit (pos n) count = if n == 0 || ltb count n then count else n
recent_limit (negsuc n) count = count

-- `Recent`: the last events, with cleaned copies of their details.
unfoldable pub recent_events : (Text → Text) → ℤ → Journal → List JournalEvent
recent_events clean_url limit j =
    map (clean_event clean_url)
      (drop (length j.items - recent_limit limit (length j.items)) j.items)
