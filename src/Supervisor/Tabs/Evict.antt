-- ===== src/Supervisor/Tabs/Evict.antt =====
-- Which tabs are closed: `evictTabsLocked` of internal/supervisor/tabs.go.
use kiosk_mate.Common.{
  ℕ, suc, zero, ◌-◌, ◌≤◌, ◌<◌, ◌≡◌, inl, inr, refl, sym, ap, subst, ◌∙◌, Bool, true, false, Option,
  none, some, List, [], ◌∷◌, ◌==◌, ltb, length, Text, text_eq, arith, Bool-cases, All,
}
use kiosk_mate.Supervisor.Tabs.{
  TabConfig, Tabs, find_victim, drop_tab, evict_loop, evict_tabs, is_kept, tab_limit, lookup,
  closing, and_close,
}

-- The list without its first `n` entries that are not kept.
unfoldable pub without_oldest : (ℕ → Bool) → ℕ → List ℕ → List ℕ
without_oldest kept n [] = []
without_oldest kept zero (x ∷ xs) = x ∷ xs
without_oldest kept (suc n) (x ∷ xs) = elim (kept x) [
  | true ↦ x ∷ without_oldest kept (suc n) xs
  | false ↦ without_oldest kept n xs
]

without_oldest-zero : (kept : ℕ → Bool) (xs : List ℕ) → without_oldest kept 0 xs ≡ xs
unfolding without_oldest
without_oldest-zero kept [] = refl
without_oldest-zero kept (x ∷ xs) = refl

-- A kept head stays.
without_oldest-kept :
    (kept : ℕ → Bool) (n x : ℕ) (xs : List ℕ)
    → kept x ≡ true
    → without_oldest kept n (x ∷ xs) ≡ x ∷ without_oldest kept n xs
unfolding without_oldest
without_oldest-kept kept zero x xs e = ap (λ l. x ∷ l) (sym (without_oldest-zero kept xs))
without_oldest-kept kept (suc n) x xs e = ground arith

without_oldest-victim :
    (kept : ℕ → Bool) (n x : ℕ) (xs : List ℕ)
    → kept x ≡ false
    → without_oldest kept (suc n) (x ∷ xs) ≡ without_oldest kept n xs
unfolding without_oldest
without_oldest-victim kept n x xs e = ground arith

-- What a search for a victim says of the reference.
abbrev FoundIn : (ℕ → Bool) → List ℕ → Option (ℕ × List ℕ) → Type 0
FoundIn kept xs none = (n : ℕ) → without_oldest kept n xs ≡ xs
FoundIn kept xs (some (victim, rest)) =
    (kept victim ≡ false)
    × (suc (length rest) ≡ length xs)
    × ((n : ℕ) → without_oldest kept (suc n) xs ≡ without_oldest kept n rest)

find_victim-FoundIn : (kept : ℕ → Bool) (xs : List ℕ) → FoundIn kept xs (find_victim kept xs)
unfolding find_victim without_oldest
find_victim-FoundIn kept [] = λ n. refl
find_victim-FoundIn kept (x ∷ xs) =
    go (kept x) refl (find_victim kept xs) (find_victim-FoundIn kept xs)
  where
    go :
        (k : Bool)
        → kept x ≡ k
        → (found : Option (ℕ × List ℕ)) → FoundIn kept xs found
        → FoundIn kept (x ∷ xs) (elim k [
          | false ↦ some (x, xs)
          | true ↦ elim found [ none ↦ none | some (victim, others) ↦ some (victim, x ∷ others) ]
        ])
    go false e found f = (e, refl, λ n. without_oldest-victim kept n x xs e)
    go true e none f = λ n. without_oldest-kept kept n x xs e ∙ ap (λ l. x ∷ l) (f n)
    go true e (some (victim, others)) (v, l, f) = (
      v,
      ap suc l,
      λ n.
          without_oldest-kept kept (suc n) x xs e
          ∙ (ap (λ r. x ∷ r) (f n) ∙ sym (without_oldest-kept kept n x others e)),
    )

evict_loop-without_oldest :
    (fuel : ℕ) (kept : ℕ → Bool) (limit keep : ℕ) (b : Tabs)
    → length b.tab_use ≤ fuel
    → (evict_loop fuel kept limit keep b).0.tab_use
      ≡ without_oldest kept (length b.tab_use - limit) b.tab_use
unfolding evict_loop
evict_loop-without_oldest zero kept limit keep b h =
    rw (nothing, without_oldest-zero kept b.tab_use) refl
  where
    nothing : length b.tab_use - limit ≡ 0
    nothing = omega arith
evict_loop-without_oldest (suc fuel) kept limit keep b h =
    elim (Bool-cases (ltb limit (length b.tab_use))) [
      | inr few ↦
          let nothing : length b.tab_use - limit ≡ 0 = ground arith in
          rw (evict_loop, few) (rw (nothing, without_oldest-zero kept b.tab_use) refl)
      | inl many ↦
          rw (evict_loop, many)
            (go (find_victim kept b.tab_use) (find_victim-FoundIn kept b.tab_use) (ground arith)
              (λ oldest rest shorter.
                evict_loop-without_oldest fuel kept limit keep (drop_tab oldest rest b) shorter))
    ]
  where
    go :
        (found : Option (ℕ × List ℕ))
        → FoundIn kept b.tab_use found
        → limit < length b.tab_use
        → ((oldest : ℕ) (rest : List ℕ)
            → length rest ≤ fuel
            → (evict_loop fuel kept limit keep (drop_tab oldest rest b)).0.tab_use
              ≡ without_oldest kept (length rest - limit) rest)
        → ◌≡◌ {A = List ℕ}
            (elim found as (λ x. Tabs × List Text) [
              | none ↦ (b, [])
              | some (oldest, rest) ↦
                  closing
                    (lookup (b.tabs oldest))
                    (lookup (b.tabs keep))
                    (evict_loop fuel kept limit keep (drop_tab oldest rest b))
            ]).0.tab_use
            (without_oldest kept (length b.tab_use - limit) b.tab_use)
    go none f many later = sym (f (length b.tab_use - limit))
    go (some (oldest, rest)) (v, l, f) many later =
        let one_less : length b.tab_use - limit ≡ suc (length rest - limit) = omega arith in
        rw (one_less, f (length rest - limit)) (later oldest rest (omega arith))

-- Eviction takes the least recently used tabs that are not kept out of the use list, as many as there
-- are above the limit, or all of them if there are fewer, and leaves the order of the others: the page
-- shown, the preloaded pages and, in an insert or outside tab mode, the insert's base stay in use.
pub evict_tabs-without_oldest :
    (cfg : TabConfig) (keep : ℕ) (b : Tabs)
    → (evict_tabs cfg keep b).0.tab_use
      ≡ without_oldest (is_kept cfg keep b) (length b.tab_use - tab_limit cfg b) b.tab_use
unfolding evict_tabs
evict_tabs-without_oldest cfg keep b =
    evict_loop-without_oldest (length b.tab_use) (is_kept cfg keep b) (tab_limit cfg b) keep b
      (omega arith)

-- The target to close differs from the one shown.
abbrev OtherThan : Text → List Text → Type 0
OtherThan shown targets = All (λ t. text_eq t shown ≡ false) targets

and_close-OtherThan :
    (target shown : Text) (others : List Text)
    → OtherThan shown others
    → OtherThan shown (and_close target shown others)
and_close-OtherThan target shown others p = ground arith

kept_stays :
    (kept : ℕ → Bool) (keep oldest : ℕ) (rest : List ℕ) (b : Tabs)
    → kept keep ≡ true
    → kept oldest ≡ false
    → (drop_tab oldest rest b).tabs keep ≡ b.tabs keep
kept_stays kept keep oldest rest b k v = elim (Bool-cases (keep == oldest)) [
  | inl same ↦
      let equal : keep ≡ oldest = ground arith in
      let clash : true ≡ false = sym k ∙ (ap kept equal ∙ v) in cc
  | inr other ↦ ground arith
]

evict_loop-OtherThan :
    (fuel : ℕ) (kept : ℕ → Bool) (limit keep : ℕ) (b : Tabs)
    → kept keep ≡ true
    → OtherThan (lookup (b.tabs keep)) (evict_loop fuel kept limit keep b).1
unfolding evict_loop
evict_loop-OtherThan zero kept limit keep b k = tt
evict_loop-OtherThan (suc fuel) kept limit keep b k =
    go (ltb limit (length b.tab_use)) (find_victim kept b.tab_use)
      (find_victim-FoundIn kept b.tab_use)
      (λ oldest rest. evict_loop-OtherThan fuel kept limit keep (drop_tab oldest rest b) k)
  where
    go :
        (many : Bool) (found : Option (ℕ × List ℕ))
        → FoundIn kept b.tab_use found
        → ((oldest : ℕ) (rest : List ℕ)
            → OtherThan
                (lookup ((drop_tab oldest rest b).tabs keep))
                (evict_loop fuel kept limit keep (drop_tab oldest rest b)).1)
        → OtherThan
            (lookup (b.tabs keep))
            (elim many as (λ x. Tabs × List Text) [
              | false ↦ (b, [])
              | true ↦ elim found as (λ x. Tabs × List Text) [
                | none ↦ (b, [])
                | some (oldest, rest) ↦
                    closing
                      (lookup (b.tabs oldest))
                      (lookup (b.tabs keep))
                      (evict_loop fuel kept limit keep (drop_tab oldest rest b))
              ]
            ]).1
    go false found f later = tt
    go true none f later = tt
    go true (some (oldest, rest)) (v, l, f) later =
        and_close-OtherThan (lookup (b.tabs oldest)) (lookup (b.tabs keep))
          ((evict_loop fuel kept limit keep (drop_tab oldest rest b)).1)
          (subst
            (λ t. OtherThan (lookup t) (evict_loop fuel kept limit keep (drop_tab oldest rest b)).1)
            (kept_stays kept keep oldest rest b k v) (later oldest rest))

-- The target of the page shown is never closed, whichever tabs are evicted.
pub evict_tabs-closed :
    (cfg : TabConfig) (keep : ℕ) (b : Tabs)
    → All (λ t. text_eq t (lookup (b.tabs keep)) ≡ false) (evict_tabs cfg keep b).1
unfolding evict_tabs
evict_tabs-closed cfg keep b =
    evict_loop-OtherThan (length b.tab_use) (is_kept cfg keep b) (tab_limit cfg b) keep b
      (ground arith)
