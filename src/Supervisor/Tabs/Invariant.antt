-- ===== src/Supervisor/Tabs/Invariant.antt =====
-- The use list and the map of tabs agree: internal/supervisor/tabs.go.
use kiosk_mate.Common.{
  member_text, ℕ, suc, zero, ◌≡◌, refl, sym, ap, subst, ◌∙◌, Bool, true, false, not, ◌&&◌, Option,
  none, some, List, [], ◌∷◌, ltb, if◌then◌else◌, length, Text, arith,
}
use kiosk_mate.Config.Pages.{is_empty}
use kiosk_mate.Supervisor.Tabs.{
  TabConfig, Tabs, find_victim, drop_tab, evict_loop, evict_tabs, lookup, closing, put, delete,
  touch_tab, bind_control_target, bind_first, reset_tabs, keep_tab_for_insert, active_url,
  without_text, consume_retarget,
}
use kiosk_mate.Supervisor.Tabs.Switch.{
  Chromium, note_switch, switch_tab, switched_to, create_tab, needs_preload, note_preloaded,
  close_other_tabs, keep_only, kept_target,
}
use kiosk_mate.Supervisor.Tabs.Use.{
  IsConsistent, is_open, Without, touched-IsConsistent, dropped-IsConsistent, find_victim-Without,
}

abbrev pub Agrees : Tabs → Type 0
Agrees b = IsConsistent b.tab_use b.tabs

evict_loop-IsConsistent :
    (fuel : ℕ) (kept : ℕ → Bool) (limit keep : ℕ) (b : Tabs)
    → IsConsistent b.tab_use b.tabs
    → IsConsistent
        (evict_loop fuel kept limit keep b).0.tab_use
        (evict_loop fuel kept limit keep b).0.tabs
unfolding evict_loop
evict_loop-IsConsistent zero kept limit keep b c = c
evict_loop-IsConsistent (suc fuel) kept limit keep b (d, c) =
    go (ltb limit (length b.tab_use)) (find_victim kept b.tab_use)
      (find_victim-Without kept b.tab_use d)
      (λ oldest rest. evict_loop-IsConsistent fuel kept limit keep (drop_tab oldest rest b))
  where
    go :
        (many : Bool) (found : Option (ℕ × List ℕ))
        → Without b.tab_use found
        → ((oldest : ℕ) (rest : List ℕ)
            → IsConsistent rest (delete oldest b.tabs)
            → Agrees (evict_loop fuel kept limit keep (drop_tab oldest rest b)).0)
        → Agrees
            (elim many as (λ x. Tabs × List Text) [
              | false ↦ (b, [])
              | true ↦ elim found as (λ x. Tabs × List Text) [
                | none ↦ (b, [])
                | some (oldest, rest) ↦
                    closing
                      (lookup (b.tabs oldest))
                      (lookup (b.tabs keep))
                      (evict_loop fuel kept limit keep (drop_tab oldest rest b))
              ]
            ]).0
    go false found f later = (d, c)
    go true none f later = (d, c)
    go true (some (oldest, rest)) (e, m) later = later oldest rest (
        subst (λ l. IsConsistent l (delete oldest b.tabs)) (sym e)
          (dropped-IsConsistent oldest b.tab_use b.tabs (d, c)))

note_switch-Agrees :
    (cfg : TabConfig) (index : ℕ) (id : Text) (created : Bool) (b : Tabs)
    → Agrees b
    → Agrees (note_switch cfg index id created b).0
unfolding note_switch evict_tabs touch_tab
note_switch-Agrees cfg index id created b a =
    evict_loop-IsConsistent _ _ _ _ _ (touched-IsConsistent index id b.tab_use b.tabs a)

switch_tab-Agrees :
    (cfg : TabConfig) (w : Chromium) (index : ℕ) (b : Tabs)
    → Agrees b
    → Agrees (switch_tab cfg w index b).0
unfolding switch_tab create_tab switched_to
switch_tab-Agrees cfg w index b a = go w.running w.reachable
  where
    pick :
        (kept : Bool) (created : Option Text)
        → Agrees
            (if kept
              then switched_to (note_switch cfg index (lookup (b.tabs index)) false b)
              else create_tab cfg (record w { created = created }) index b).0
    pick true created = note_switch-Agrees cfg index (lookup (b.tabs index)) false b a
    pick false none = a
    pick false (some []) = a
    pick false (some (c ∷ id)) = note_switch-Agrees cfg index (c ∷ id) true b a

    go :
        (running reachable : Bool)
        → Agrees (switch_tab cfg (record w { running = running; reachable = reachable }) index b).0
    go false reachable = a
    go true false = a
    go true true = pick (not (is_empty (lookup (b.tabs index))) && w.activates) w.created

bind_first-Agrees :
    (cfg : TabConfig) (id : Text) (b : Tabs) → Agrees b → Agrees (bind_first cfg id b)
unfolding bind_first touch_tab
bind_first-Agrees cfg id b a = go (b.tabs b.active)
  where
    go :
        (o : Option Text)
        → Agrees (elim o [
          | some t ↦ record b { active_target = id }
          | none ↦ touch_tab b.active (record b {
            active_target = id;
            tabs = put b.active id b.tabs;
            tab_url = put b.active (active_url cfg.kiosk b.active) b.tab_url;
          })
        ])
    go none = touched-IsConsistent b.active id b.tab_use b.tabs a
    go (some t) = a

bind_control_target-Agrees :
    (cfg : TabConfig) (id : Text) (b : Tabs) → Agrees b → Agrees (bind_control_target cfg id b).0
unfolding bind_control_target
bind_control_target-Agrees cfg [] b a = a
bind_control_target-Agrees cfg (c ∷ s) b a =
    go (member_text (c ∷ s) b.pending_blank) (is_empty b.active_target)
  where
    go :
        (blank first : Bool)
        → let b' : Tabs = if first then bind_first cfg (c ∷ s) b else b in
          let bound : Tabs × Bool =
            if blank
            then (record b' { pending_blank = without_text (c ∷ s) b.pending_blank }, true)
            else (b', false) in
          Agrees bound.0
    go false false = a
    go false true = bind_first-Agrees cfg (c ∷ s) b a
    go true false = a
    go true true = bind_first-Agrees cfg (c ∷ s) b a

note_preloaded-Agrees :
    (cfg : TabConfig) (index : ℕ) (created : Option Text) (b : Tabs)
    → needs_preload index b ≡ true
    → Agrees b
    → Agrees (note_preloaded cfg index created b)
unfolding note_preloaded
note_preloaded-Agrees cfg index created b fresh (d, c) =
    go (closed (b.tabs index) refl fresh) (lookup created)
  where
    closed :
        (o : Option Text)
        → b.tabs index ≡ o
        → elim o as (λ x. Bool) [ some t ↦ false | none ↦ true ] ≡ true
        → b.tabs index ≡ none
    closed none e f = e
    closed (some t) e f = cc

    go :
        b.tabs index ≡ none
        → (target : Text)
        → Agrees (
            if is_empty target then b else record b {
              tabs = put index target b.tabs;
              tab_url = put index (active_url cfg.kiosk index) b.tab_url;
              tab_use = index ∷ b.tab_use;
            })
    go e [] = (d, c)
    go e (x ∷ s) = ((c index ∙ ap is_open e, d), λ j. ground (arith, c j))

keep_tab_for_insert-Agrees :
    (cfg : TabConfig) (base : ℕ) (b : Tabs) → Agrees b → Agrees (keep_tab_for_insert cfg base b).0
unfolding keep_tab_for_insert
keep_tab_for_insert-Agrees cfg base b (d, c) = go b.active_target
  where
    go : (t : Text) → Agrees (keep_tab_for_insert cfg base (record b { active_target = t })).0
    go [] = (d, c)
    go (x ∷ s) = ((refl, tt), λ i. ground arith)

close_other_tabs-Agrees :
    (cfg : TabConfig) (keep : ℕ) (b : Tabs) → Agrees b → Agrees (close_other_tabs cfg keep b).0
unfolding close_other_tabs
close_other_tabs-Agrees cfg keep b (d, c) = go (kept_target keep b)
  where
    go : (id : Text) → Agrees (keep_only cfg keep id b)
    go [] = (d, c)
    go (x ∷ s) = ((refl, tt), λ i. ground arith)

-- The states of the bookkeeping: a new browser process resets it, the control session binds a target,
-- pages are switched to, preloaded and kept for an insert, the other tabs are closed, a pending change
-- of target is consumed, and the page on screen and the insert's mark change elsewhere. A preloaded tab is
-- noted for a page that still has none.
pub data Reached : Tabs → Type 0 where
  resets : (b : Tabs) → Reached (reset_tabs b)
  binds :
      (cfg : TabConfig) (id : Text) (b : Tabs)
      → Reached b
      → Reached (bind_control_target cfg id b).0
  switches :
      (cfg : TabConfig) (w : Chromium) (index : ℕ) (b : Tabs)
      → Reached b
      → Reached (switch_tab cfg w index b).0
  preloads :
      (cfg : TabConfig) (index : ℕ) (created : Option Text) (b : Tabs)
      → Reached b
      → needs_preload index b ≡ true
      → Reached (note_preloaded cfg index created b)
  keeps :
      (cfg : TabConfig) (base : ℕ) (b : Tabs)
      → Reached b
      → Reached (keep_tab_for_insert cfg base b).0
  closes :
      (cfg : TabConfig) (keep : ℕ) (b : Tabs) → Reached b → Reached (close_other_tabs cfg keep b).0
  consumes : (b : Tabs) → Reached b → Reached (consume_retarget b).0
  elsewhere :
      (active : ℕ) (insert_tab : Bool) (b : Tabs)
      → Reached b
      → Reached (record b { active = active; insert_tab = insert_tab })

-- In every state that these steps reach, the use list holds each page once, and exactly the pages that
-- have an open tab in the map, as long as no page gets a tab while its preload waits for Chromium's answer.
pub Reached-IsConsistent : (b : Tabs) → Reached b → IsConsistent b.tab_use b.tabs
unfolding reset_tabs consume_retarget
Reached-IsConsistent b (resets old) = (tt, λ i. refl)
Reached-IsConsistent b (binds cfg id old r) =
    bind_control_target-Agrees cfg id old (Reached-IsConsistent old r)
Reached-IsConsistent b (switches cfg w index old r) =
    switch_tab-Agrees cfg w index old (Reached-IsConsistent old r)
Reached-IsConsistent b (preloads cfg index created old r fresh) =
    note_preloaded-Agrees cfg index created old fresh (Reached-IsConsistent old r)
Reached-IsConsistent b (keeps cfg base old r) =
    keep_tab_for_insert-Agrees cfg base old (Reached-IsConsistent old r)
Reached-IsConsistent b (closes cfg keep old r) =
    close_other_tabs-Agrees cfg keep old (Reached-IsConsistent old r)
Reached-IsConsistent b (consumes old r) = Reached-IsConsistent old r
Reached-IsConsistent b (elsewhere active insert old r) = Reached-IsConsistent old r
