-- ===== src/Supervisor/Tabs.antt =====
-- Tab mode: internal/supervisor/tabs.go, with `PreloadIndexes` of internal/config/config.go and
-- `activeURL` of internal/supervisor/browser.go. A Go map is a function to options. The commands to close a tab, whose
-- result the source ignores, are the list of targets that a function returns.
pub mod Evict
pub mod Switch
pub mod Use
pub mod Invariant
use kiosk_mate.Common.{
  member_text, ℕ, suc, zero, ◌+◌, Bool, true, false, not, ◌&&◌, ◌||◌, Option, none, some, List, [],
  ◌∷◌, ◌++◌, ◌==◌, ltb, leb, max, if◌then◌else◌, length, get_elem?, Text, text_eq, to_lower,
  trim_space, codes, ℤ, pos, negsuc,
}
use kiosk_mate.Config.Kiosk.{KioskConfig, KioskPage}
use kiosk_mate.Config.Pages.{enabled_pages, page_urls, is_empty}

pub record TabConfig : Type 0 where
  pub kiosk : KioskConfig
  pub max_tabs : ℤ
  pub profile : Text
  pub tab_mode : Bool

-- The tab bookkeeping of `Browser`; no target is the empty text.
pub record Tabs : Type 0 where
  pub active : ℕ
  pub tabs : ℕ → Option Text
  pub tab_url : ℕ → Option Text
  pub tab_use : List ℕ
  pub pending_blank : List Text
  pub active_target : Text
  pub reveal_target : Text
  pub retarget : Bool
  pub insert_tab : Bool
  pub insert_base : ℕ

abbrev pub put : ℕ → Text → (ℕ → Option Text) → ℕ → Option Text
put i t m j = if j == i then some t else m j

abbrev pub delete : ℕ → (ℕ → Option Text) → ℕ → Option Text
delete i m j = if j == i then none else m j

-- What a Go map gives for a key, the empty text for a missing one.
abbrev pub lookup : Option Text → Text
lookup none = []
lookup (some t) = t

preload_from : ℕ → List KioskPage → List ℕ
preload_from i [] = []
preload_from i (page ∷ pages) =
    let rest = preload_from (i + 1) pages in if page.preload then i ∷ rest else rest

unfoldable pub preload_indexes : KioskConfig → List ℕ
unfolding preload_from
preload_indexes k = preload_from 0 (enabled_pages k)

unfoldable pub active_url : KioskConfig → ℕ → Text
active_url k active = elim (page_urls k) [
  | [] ↦ codes "about:blank"
  | first ∷ rest ↦ elim (get_elem? (first ∷ rest) active) [ some url ↦ url | none ↦ first ]
]

unfoldable pub low_power_profile : Text → Bool
low_power_profile profile =
    let p = to_lower (trim_space profile) in
    text_eq p (codes "raspberry")
    || text_eq p (codes "low-power")
    || text_eq p (codes "minimal")
    || text_eq p (codes "conservative")

unfoldable pub max_tabs : TabConfig → ℕ
max_tabs cfg = elim cfg.max_tabs [
  | pos n ↦ if leb 1 n && leb n 8 then n else if low_power_profile cfg.profile then 2 else 3
  | negsuc n ↦ if low_power_profile cfg.profile then 2 else 3
]

unfoldable pub reset_tabs : Tabs → Tabs
reset_tabs b = record b {
  tabs = λ i. none;
  tab_use = [];
  active_target = [];
  retarget = false;
  pending_blank = [];
  tab_url = λ i. none;
  insert_tab = false;
  reveal_target = [];
}

-- The state, and whether the insert can open next to the tab on screen.
unfoldable pub keep_tab_for_insert : TabConfig → ℕ → Tabs → Tabs × Bool
keep_tab_for_insert cfg base b = if is_empty b.active_target then (b, false) else (
  record b {
    tabs = put base b.active_target (λ i. none);
    tab_url = put base (active_url cfg.kiosk base) (λ i. none);
    tab_use = base ∷ [];
    pending_blank = [];
    insert_base = base;
  },
  true,
)

abbrev pub member : ℕ → List ℕ → Bool
member i [] = false
member i (x ∷ xs) = x == i || member i xs

abbrev pub without : ℕ → List ℕ → List ℕ
without i [] = []
without i (x ∷ xs) = let rest = without i xs in if x == i then rest else x ∷ rest

unfoldable pub touch_tab : ℕ → Tabs → Tabs
touch_tab index b = record b { tab_use = without index b.tab_use ++ index ∷ [] }

abbrev pub without_text : Text → List Text → List Text
without_text t [] = []
without_text t (x ∷ xs) = let rest = without_text t xs in if text_eq x t then rest else x ∷ rest

bind_first : TabConfig → Text → Tabs → Tabs
bind_first cfg id b = elim (b.tabs b.active) [
  | some t ↦ record b { active_target = id }
  | none ↦ touch_tab b.active (record b {
    active_target = id;
    tabs = put b.active id b.tabs;
    tab_url = put b.active (active_url cfg.kiosk b.active) b.tab_url;
  })
]

-- The state, and whether the bound target is a new blank tab.
unfoldable pub bind_control_target : TabConfig → Text → Tabs → Tabs × Bool
unfolding bind_first
bind_control_target cfg id b =
    let b' = if is_empty b.active_target then bind_first cfg id b else b in
    if is_empty id
    then (b, false)
    else if member_text id b.pending_blank
    then (record b' { pending_blank = without_text id b.pending_blank }, true)
    else (b', false)

unfoldable pub consume_retarget : Tabs → Tabs × Bool
consume_retarget b = (record b { retarget = false }, b.retarget)

-- The first index that is not kept, and the list without it.
unfoldable pub find_victim : (ℕ → Bool) → List ℕ → Option (ℕ × List ℕ)
find_victim kept [] = none
find_victim kept (index ∷ rest) = elim (kept index) [
  | false ↦ some (index, rest)
  | true ↦ elim (find_victim kept rest) [
    | none ↦ none
    | some (victim, others) ↦ some (victim, index ∷ others)
  ]
]

abbrev pub drop_tab : ℕ → List ℕ → Tabs → Tabs
drop_tab oldest rest b = record b {
  tab_use = rest;
  tabs = delete oldest b.tabs;
  tab_url = delete oldest b.tab_url;
}

-- The target to close for an evicted page, before the others.
abbrev pub and_close : Text → Text → List Text → List Text
and_close target shown others =
    if not (is_empty target) && not (text_eq target shown) then target ∷ others else others

abbrev pub closing : Text → Text → Tabs × List Text → Tabs × List Text
closing target shown (b, others) = (b, and_close target shown others)

-- The loop of `evictTabsLocked`: each round takes one index off `tab_use`, so its length is fuel enough.
unfoldable pub evict_loop : ℕ → (ℕ → Bool) → ℕ → ℕ → Tabs → Tabs × List Text
evict_loop zero kept limit keep b = (b, [])
evict_loop (suc fuel) kept limit keep b = elim (ltb limit (length b.tab_use)) [
  | false ↦ (b, [])
  | true ↦ elim (find_victim kept b.tab_use) [
    | none ↦ (b, [])
    | some (oldest, rest) ↦
        closing (lookup (b.tabs oldest)) (lookup (b.tabs keep))
          (evict_loop fuel kept limit keep (drop_tab oldest rest b))
  ]
]

-- Whether the base of an insert is kept, besides the preloaded pages.
abbrev pub beside_insert : TabConfig → Tabs → Bool
beside_insert cfg b = b.insert_tab || not cfg.tab_mode

abbrev pub is_kept : TabConfig → ℕ → Tabs → ℕ → Bool
is_kept cfg keep b index =
    index == keep
    || member index (preload_indexes cfg.kiosk)
    || (beside_insert cfg b && index == b.insert_base)

abbrev pub tab_limit : TabConfig → Tabs → ℕ
tab_limit cfg b = if beside_insert cfg b then max (max_tabs cfg) 2 else max_tabs cfg

unfoldable pub evict_tabs : TabConfig → ℕ → Tabs → Tabs × List Text
evict_tabs cfg keep b = evict_loop (length b.tab_use) (is_kept cfg keep b) (tab_limit cfg b) keep b
