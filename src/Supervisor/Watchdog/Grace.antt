-- ===== src/Supervisor/Watchdog/Grace.antt =====
-- What the browser must have done before the watchdog asks for a restart.
use kiosk_mate.Common.{
  ℕ, ◌+◌, ◌≤◌, ◌<◌, ◌≡◌, refl, sym, subst, ◌≢◌, ◌⊎◌, inl, inr, Bool, true, false, ◌||◌, List, [],
  ◌∷◌, All, arith,
}
use kiosk_mate.Supervisor.Watchdog.{
  Watchdog, WatchdogConfig, should_restart, over_rss, over_cpu, watchdog_min_cpu_only_grace,
}
use kiosk_mate.Supervisor.Watchdog.Budget.{fresh}

pub record Sample : Type 0 where
  pub at : ℕ
  pub rss_mb : ℕ
  pub cpu_percent : ℕ

-- The samples stand newest first.
unfoldable pub after_checks : WatchdogConfig → List Sample → Watchdog
after_checks cfg [] = fresh
after_checks cfg (s ∷ earlier) =
    (should_restart cfg s.rss_mb s.cpu_percent s.at (after_checks cfg earlier)).0

abbrev pub IsDescending : ℕ → List Sample → Type 0
IsDescending now [] = Unit
IsDescending now (s ∷ earlier) = (s.at < now) × IsDescending s.at earlier

abbrev pub over_limit : WatchdogConfig → Sample → Bool
over_limit cfg s = over_rss cfg s.rss_mb || over_cpu cfg s.cpu_percent

abbrev pub HotFrom : WatchdogConfig → ℕ → List Sample → Type 0
HotFrom cfg since samples = All (λ s. since ≤ s.at → over_limit cfg s ≡ true) samples

abbrev IsHot : WatchdogConfig → Watchdog → List Sample → Type 0
IsHot cfg b samples = (b.hot_since ≡ 0) ⊎ HotFrom cfg b.hot_since samples

past-HotFrom :
    (cfg : WatchdogConfig) (now : ℕ) (samples : List Sample)
    → IsDescending now samples
    → HotFrom cfg now samples
past-HotFrom cfg now [] h = tt
past-HotFrom cfg now (s ∷ earlier) h =
    (λ p. absurd (omega arith), past-HotFrom cfg now earlier (lower earlier h))
  where
    lower : (rest : List Sample) → IsDescending now (s ∷ rest) → IsDescending now rest
    lower [] k = tt
    lower (r ∷ rest) k = (omega arith, k.1.1)

-- What one check does to `hot_since`.
next_hot :
    (cfg : WatchdogConfig) (s : Sample) (b : Watchdog)
    → ((should_restart cfg s.rss_mb s.cpu_percent s.at b).0.hot_since ≡ 0)
      ⊎ ((over_limit cfg s ≡ true)
          × (((should_restart cfg s.rss_mb s.cpu_percent s.at b).0.hot_since ≡ s.at)
              ⊎ ((should_restart cfg s.rss_mb s.cpu_percent s.at b).0.hot_since ≡ b.hot_since)
                × (b.hot_since ≢ 0)))
unfolding should_restart
next_hot cfg s b = ground arith

step-IsHot :
    (cfg : WatchdogConfig) (s : Sample) (b : Watchdog) (earlier : List Sample)
    → IsDescending s.at earlier
    → IsHot cfg b earlier
    → IsHot cfg (should_restart cfg s.rss_mb s.cpu_percent s.at b).0 (s ∷ earlier)
step-IsHot cfg s b earlier d k = elim (next_hot cfg s b) [
  | inl cold ↦ inl cold
  | inr (over, inl e) ↦ moved e (inr (λ _. over, past-HotFrom cfg s.at earlier d))
  | inr (over, inr (e, hot)) ↦ elim k [
    | inl cold ↦ absurd (hot cold)
    | inr since ↦ moved e (inr (λ _. over, since))
  ]
]
  where
    moved :
        {h h' : ℕ}
        → h' ≡ h
        → (h ≡ 0) ⊎ HotFrom cfg h (s ∷ earlier)
        → (h' ≡ 0) ⊎ HotFrom cfg h' (s ∷ earlier)
    moved e = subst (λ h. (h ≡ 0) ⊎ HotFrom cfg h (s ∷ earlier)) (sym e)

checks-IsHot :
    (cfg : WatchdogConfig) (samples : List Sample) (now : ℕ)
    → IsDescending now samples
    → IsHot cfg (after_checks cfg samples) samples
unfolding after_checks
checks-IsHot cfg [] now d = inl refl
checks-IsHot cfg (s ∷ earlier) now d =
    step-IsHot cfg s (after_checks cfg earlier) earlier d.1 (checks-IsHot cfg earlier s.at d.1)

-- What a restart asked for by one check says of that check and of the state before it.
asked :
    (cfg : WatchdogConfig) (s : Sample) (b : Watchdog)
    → (should_restart cfg s.rss_mb s.cpu_percent s.at b).1 ≡ true
    → (b.hot_since ≢ 0)
      × (over_limit cfg s ≡ true)
      × (b.hot_since + cfg.cpu_grace ≤ s.at)
      × (over_rss cfg s.rss_mb ≡ false
          → (cfg.restart_on_cpu ≡ true) × (b.hot_since + watchdog_min_cpu_only_grace ≤ s.at))
unfolding should_restart
asked cfg s b e = (ground arith, ground arith, ground arith, λ h. ground arith)

-- After any checks, at growing times, a check asks for a restart only if the limits were passed in
-- this check and in every check since the time `hot_since` at least the configured grace ago; and if
-- only the CPU limit is passed, only with `restart_on_cpu` and at least ten minutes after that time.
pub restart_after_grace :
    (cfg : WatchdogConfig) (s : Sample) (earlier : List Sample)
    → IsDescending s.at earlier
    → (should_restart cfg s.rss_mb s.cpu_percent s.at (after_checks cfg earlier)).1 ≡ true
    → HotFrom cfg (after_checks cfg earlier).hot_since (s ∷ earlier)
      × ((after_checks cfg earlier).hot_since + cfg.cpu_grace ≤ s.at)
      × (over_rss cfg s.rss_mb ≡ false
          → (cfg.restart_on_cpu ≡ true)
            × ((after_checks cfg earlier).hot_since + watchdog_min_cpu_only_grace ≤ s.at))
restart_after_grace cfg s earlier d e =
    let (warm, over, long, cpu_only) = asked cfg s (after_checks cfg earlier) e in
    elim (checks-IsHot cfg earlier s.at d) [
      | inl cold ↦ absurd (warm cold)
      | inr hot ↦ ((λ _. over, hot), long, cpu_only)
    ]
