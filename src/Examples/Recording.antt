-- ===== src/Examples/Recording.antt =====
-- The store of signals and the journal, told some things.
use kiosk_mate.Common.{
  has_prefix, ◌≡◌, refl, false, List, [], ◌∷◌, codes, text_eq, trim_space, to_lower, arith,
}
use kiosk_mate.Config.Inserts.Conditions.{inserts_where}
use kiosk_mate.Signals.{
  Store, Told, was_set, was_present, set_value, value_of, note_presence, tell_all,
}
use kiosk_mate.Signals.Wake.{tell_all-inserts_where}
use kiosk_mate.Journal.{
  Journal, Report, record_all, contains, clean, clean_details, set_detail, clean_details_into,
}
use kiosk_mate.Journal.Privacy.{IsJournal, record_all-IsJournal}
use kiosk_mate.Examples.Inserting.{shown, motion}

abbrev moving : Store
moving = record { values = motion; last_presence = 1_000; source = codes "touch"; pending = false }

abbrev again : List Told
again = was_set (codes " motion") (codes "ON") ∷ was_present 2_000 (codes "mqtt") ∷ []

nothing_new : (tell_all again moving).pending ≡ false
unfolding tell_all set_value note_presence trim_space text_eq
nothing_new = refl

tell_all-inserts_where_example :
    inserts_where (value_of (tell_all again moving)) shown ≡ inserts_where (value_of moving) shown
tell_all-inserts_where_example = tell_all-inserts_where again moving shown nothing_new

abbrev sign_in : Report
sign_in = record {
  at = 5;
  component = [];
  action = codes "login";
  status = codes "ok";
  message = codes " hello ";
  duration = 0;
  details = (codes "User", codes "kiosk") ∷ (codes "API_Token", codes "abc") ∷ [];
}

abbrev fresh : Journal
fresh = record { limit = 1; items = []; seq = 0 }

record_all-IsJournal_example : IsJournal (record_all (λ url. url) (sign_in ∷ sign_in ∷ []) fresh)
record_all-IsJournal_example =
    record_all-IsJournal (λ url. url) (sign_in ∷ sign_in ∷ []) fresh (tt, omega arith)

-- The token is dropped.
kept_details : clean_details (λ url. url) sign_in.details ≡ (codes "User", codes "kiosk") ∷ []
unfolding clean_details clean_details_into clean contains set_detail trim_space to_lower text_eq
    has_prefix
kept_details = refl
