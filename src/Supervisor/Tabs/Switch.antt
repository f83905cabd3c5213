-- ===== src/Supervisor/Tabs/Switch.antt =====
-- Switching to a page's tab, preloading and closing tabs: `switchTab`, `preloadTabs` and `closeOtherTabs`
-- of internal/supervisor/tabs.go. What Chromium answers to the commands is an argument.
use kiosk_mate.Common.{
  ℕ, Bool, true, false, not, ◌&&◌, ◌||◌, Option, none, some, List, [], ◌∷◌, ◌==◌, if◌then◌else◌,
  Text, text_eq,
}
use kiosk_mate.Config.Pages.{is_empty}
use kiosk_mate.Supervisor.Tabs.{TabConfig, Tabs, put, lookup, touch_tab, evict_tabs, active_url}

-- What Chromium does for a switch; `created` is `none` for an error.
pub record Chromium : Type 0 where
  pub running : Bool
  pub reachable : Bool
  pub activates : Bool
  pub created : Option Text

pub data SwitchError : Type 0 where
  not_running unreachable not_created no_target_id : SwitchError

-- The bookkeeping of `switchTab` for the target `id`, and the targets that it closes.
unfoldable pub note_switch : TabConfig → ℕ → Text → Bool → Tabs → Tabs × List Text
note_switch cfg index id created b =
    let want = active_url cfg.kiosk index in
    let blank : Bool = created || not (text_eq (lookup (b.tab_url index)) want) in
    let noted : Tabs = touch_tab index (record b {
      tabs = put index id b.tabs;
      tab_url = put index want b.tab_url;
      pending_blank = if blank then id ∷ b.pending_blank else b.pending_blank;
      reveal_target = if created then id else [];
    }) in
    let (evicted, targets) = evict_tabs cfg index noted in
    (record evicted { active_target = id; retarget = true }, targets)

pub data Switched : Type 0 where
  failed : SwitchError → Switched
  switched : List Text → Switched

unfoldable pub switched_to : Tabs × List Text → Tabs × Switched
switched_to (b, targets) = (b, switched targets)

unfoldable pub create_tab : TabConfig → Chromium → ℕ → Tabs → Tabs × Switched
unfolding switched_to
create_tab cfg w index b = elim w.created [
  | none ↦ (b, failed not_created)
  | some id ↦
      if is_empty id
      then (b, failed no_target_id)
      else switched_to (note_switch cfg index id true b)
]

unfoldable pub switch_tab : TabConfig → Chromium → ℕ → Tabs → Tabs × Switched
unfolding create_tab switched_to
switch_tab cfg w index b =
    let id = lookup (b.tabs index) in
    if not w.running
    then (b, failed not_running)
    else if not w.reachable
    then (b, failed unreachable)
    else if not (is_empty id) && w.activates
    then switched_to (note_switch cfg index id false b)
    else create_tab cfg w index b

-- One round of the loop of `preloadTabs` asks under the lock whether the page has no tab, has Chromium
-- create one without the lock, and notes the target that Chromium answers, if any, under the lock again.
abbrev pub needs_preload : ℕ → Tabs → Bool
needs_preload index b = elim (b.tabs index) [ some t ↦ false | none ↦ true ]

unfoldable pub note_preloaded : TabConfig → ℕ → Option Text → Tabs → Tabs
note_preloaded cfg index created b =
    let target = lookup created in
    if is_empty target then b else record b {
      tabs = put index target b.tabs;
      tab_url = put index (active_url cfg.kiosk index) b.tab_url;
      tab_use = index ∷ b.tab_use;
    }

-- The tab of the page `keep`, or the tab on screen if it has none.
abbrev pub kept_target : ℕ → Tabs → Text
kept_target keep b =
    if is_empty (lookup (b.tabs keep)) then b.active_target else lookup (b.tabs keep)

abbrev pub keep_only : TabConfig → ℕ → Text → Tabs → Tabs
keep_only cfg keep id b = if is_empty id then record b { insert_tab = false } else record b {
  insert_tab = false;
  tabs = put keep id (λ i. none);
  tab_url = put keep (active_url cfg.kiosk keep) (λ i. none);
  tab_use = keep ∷ [];
}

-- The targets of the other pages, in the order of the use list, which holds the pages of the map; the
-- source goes through the map in no fixed order.
others : ℕ → Text → List ℕ → Tabs → List Text
others keep id [] b = []
others keep id (index ∷ rest) b =
    let later = others keep id rest b in
    let target = lookup (b.tabs index) in
    if index == keep || text_eq target id || text_eq target b.active_target
    then later
    else target ∷ later

unfoldable pub close_other_tabs : TabConfig → ℕ → Tabs → Tabs × List Text
unfolding others
close_other_tabs cfg keep b =
    let id = kept_target keep b in (keep_only cfg keep id b, others keep id b.tab_use b)
