-- ===== src/Config/Inserts/Timeline.antt =====
-- The preview of the programme: `ProgramTimeline` of internal/config/inserts.go.
use kiosk_mate.Common.{
  ℕ, ◌≤◌, ◌<◌, ◌≡◌, ◌⊎◌, inl, inr, refl, sym, ap, subst, ◌∙◌, Bool, true, false, ◌&&◌, Option, none,
  some, List, [], ◌∷◌, ◌++◌, if◌then◌else◌, ltb, ltb_iff, ◌==◌, sort, compact, Memᴰ, sort-Mem,
  Mem-sort, compact-Mem, Mem-compact, Text, text_eq, text_eq→eq, Bool-cases, arith,
}
use kiosk_mate.Common.Ascending.{IsAscending, sort-IsSorted, compact-IsAscending}
use mathlib.Core.List.{reverse, reverse-cons}
use mathlib.Core.List.Memᴰ
use kiosk_mate.Config.Kiosk.{KioskConfig, PageInsert}
use kiosk_mate.Config.Inserts.{Calendar, InsertSlot, insert_slots}
use kiosk_mate.Config.Inserts.Calendars.{IsCalendar}
use kiosk_mate.Config.Inserts.Program.{
  best_from, active_insert, ProgramSegment, inside, edges, segment_of, add_segment, segments,
  cut_segments, program_timeline,
}
use kiosk_mate.Config.Inserts.Cuts.{best_from-same, IsQuiet, quiet-running, edges-Mem, edges-inside}
use kiosk_mate.Config.Inserts.Winner.{
  best_from-IsOnScreen, active_insert-IsOnScreen, insert_on, IsOnScreen-same,
}

-- The id of an insert, or the empty text for the base programme.
abbrev pub shown_id : Option PageInsert → Text
shown_id none = []
shown_id (some p) = p.id

-- A segment names the insert that is on screen at each of its instants.
abbrev pub IsTrueSegment : KioskConfig → Calendar → ProgramSegment → Type 0
IsTrueSegment k c s =
    (t : ℕ) → s.start ≤ t → t < s.end → s.insert_id ≡ shown_id (insert_on (active_insert k c t))

-- Segments that cover the time from `from` to `to` without gaps, each of them true.
abbrev pub IsProgram : KioskConfig → Calendar → ℕ → ℕ → List ProgramSegment → Type 0
IsProgram k c from to [] = from ≡ to
IsProgram k c from to (s ∷ rest) =
    (s.start ≡ from) × (s.start < s.end) × IsTrueSegment k c s × IsProgram k c s.end to rest

segment_of-fields :
    (a b : ℕ) (best : Option InsertSlot)
    → ((segment_of a b best).start ≡ a)
      × ((segment_of a b best).end ≡ b)
      × ((segment_of a b best).insert_id ≡ shown_id (insert_on best))
segment_of-fields a b none = (refl, refl, refl)
segment_of-fields a b (some s) = (refl, refl, refl)

module _ (k : KioskConfig) (c : Calendar) (from : ℕ) where
  -- The segments up to `at`, the newest first.
  abbrev Back : ℕ → List ProgramSegment → Type 0
  Back at [] = from ≡ at
  Back at (s ∷ rest) = (s.end ≡ at) × (s.start < s.end) × IsTrueSegment k c s × Back s.start rest

  add_segment-Back :
      (s : ProgramSegment) (out : List ProgramSegment)
      → s.start < s.end
      → IsTrueSegment k c s
      → Back s.start out
      → Back s.end (add_segment s out)
  add_segment-Back s [] lt true_s h = (refl, lt, true_s, h)
  add_segment-Back s (last ∷ out) lt true_s (e, lt', true_last, h) =
      go (text_eq last.insert_id s.insert_id) (last.end == s.start)
        (text_eq→eq last.insert_id s.insert_id)
    where
      merged : last.insert_id ≡ s.insert_id → IsTrueSegment k c (record last { end = s.end })
      merged same t le u = elim (Bool-cases (ltb t last.end)) [
        | inl early ↦ true_last t le ((ltb_iff t last.end).0 early)
        | inr late ↦ same ∙ true_s t (after late e) u
      ]
        where
          after : ltb t last.end ≡ false → last.end ≡ s.start → s.start ≤ t
          after g f = ground arith

      go :
          (same touching : Bool)
          → (same ≡ true → last.insert_id ≡ s.insert_id)
          → Back s.end
              (if same && touching then record last { end = s.end } ∷ out else s ∷ last ∷ out)
      go true true f = (refl, omega (arith, lt, lt', e), merged (f refl), h)
      go true false f = (refl, lt, true_s, (e, lt', true_last, h))
      go false _ f = (refl, lt, true_s, (e, lt', true_last, h))

-- A segment between two cuts is true if no slot starts or ends between them.
quiet-IsTrueSegment :
    (k : KioskConfig) (c : Calendar) (from to a b : ℕ)
    → IsCalendar c
    → from ≤ a
    → b ≤ to
    → ((s : InsertSlot) → Memᴰ s (insert_slots k c from to) → IsQuiet a b s)
    → IsTrueSegment k c (segment_of a b (best_from a (insert_slots k c from to) none))
quiet-IsTrueSegment k c from to a b law le bound quiet t starts ends =
    let best = best_from a (insert_slots k c from to) none in
    let (at_a, at_b, id) = segment_of-fields a b best in
    let later : a ≤ t = subst (λ x. x ≤ t) at_a starts in
    let early : t < b = subst (λ x. t < x) at_b ends in
    let same =
      best_from-same a t (insert_slots k c from to) none
        (λ s m. quiet-running a b t s (quiet s m) later early) in
    id
    ∙ ap (λ x. shown_id (insert_on x)) (sym same)
    ∙ ap shown_id (
        IsOnScreen-same k c t _ (active_insert k c t)
          (best_from-IsOnScreen k c from to t law (omega (arith, le, later))
            (omega (arith, early, bound)))
          (active_insert-IsOnScreen k c t law))

module _ (k : KioskConfig) (c : Calendar) (law : IsCalendar c) (from to : ℕ) where
  abbrev slots : List InsertSlot
  slots = insert_slots k c from to

  -- The edges from `start` on are among the cuts, and so is `to`.
  abbrev Remaining : ℕ → List ℕ → Type 0
  Remaining start cuts =
      ((n : ℕ) → Memᴰ n (edges from to slots) → (n ≤ start) ⊎ Memᴰ n cuts)
      × ((start ≡ to) ⊎ Memᴰ to cuts)

  above-head :
      (start : ℕ) (cuts : List ℕ) (n : ℕ) → IsAscending (start ∷ cuts) → Memᴰ n cuts → start < n
  above-head start [] n h m = absurd (Memᴰ.not-nil m)
  above-head start (x ∷ cuts) n ((h, hs), g) (Memᴰ.head e) = omega (arith, h, e)
  above-head start (x ∷ cuts) n ((h, hs), (g, gs)) (Memᴰ.tail m) =
      above-head start cuts n (hs, gs) m

  Remaining-IsQuiet :
      (a b : ℕ) (cuts : List ℕ)
      → IsAscending (b ∷ cuts)
      → from ≤ a
      → b ≤ to
      → Remaining a (b ∷ cuts)
      → (s : InsertSlot) → Memᴰ s slots
      → IsQuiet a b s
  Remaining-IsQuiet a b cuts asc le bound (seen, ends) s m =
      let (starts, stops) = edges-Mem from to slots s m in (apart s.start starts, apart s.end stops)
    where
      beyond : (n : ℕ) → (n ≤ a) ⊎ Memᴰ n (b ∷ cuts) → (n ≤ a) ⊎ (b ≤ n)
      beyond n (inl h) = inl h
      beyond n (inr (Memᴰ.head e)) = inr (omega (arith, e))
      beyond n (inr (Memᴰ.tail g)) =
          let above = above-head b cuts n asc g in inr (omega (arith, above))

      outside : (n : ℕ) → inside from to n ≡ false → (n ≤ a) ⊎ (b ≤ n)
      outside n h = ground arith

      apart : (n : ℕ) → (inside from to n ≡ true → Memᴰ n (edges from to slots)) → (n ≤ a) ⊎ (b ≤ n)
      apart n h = elim (Bool-cases (inside from to n)) [
        | inl within ↦ beyond n (seen n (h within))
        | inr not_within ↦ outside n not_within
      ]

  Remaining-next :
      (a b : ℕ) (cuts : List ℕ) → a < b → b ≤ to → Remaining a (b ∷ cuts) → Remaining b cuts
  Remaining-next a b cuts lt bound (seen, ends) = (λ n m. past n (seen n m), last ends)
    where
      past : (n : ℕ) → (n ≤ a) ⊎ Memᴰ n (b ∷ cuts) → (n ≤ b) ⊎ Memᴰ n cuts
      past n (inl h) = inl (omega (arith, h, lt))
      past n (inr (Memᴰ.head e)) = inl (omega (arith, e))
      past n (inr (Memᴰ.tail g)) = inr g

      beyond_end : a ≡ to → ⊥
      beyond_end e = omega (arith, lt, bound, e)

      last : (a ≡ to) ⊎ Memᴰ to (b ∷ cuts) → (b ≡ to) ⊎ Memᴰ to cuts
      last (inl e) = absurd (beyond_end e)
      last (inr (Memᴰ.head e)) = inl (sym e)
      last (inr (Memᴰ.tail g)) = inr g

  segments-Back :
      (start : ℕ) (cuts : List ℕ) (out : List ProgramSegment)
      → IsAscending (start ∷ cuts)
      → from ≤ start
      → ((n : ℕ) → Memᴰ n cuts → n ≤ to)
      → Remaining start cuts
      → Back k c from start out
      → Back k c from to (segments slots start cuts out)
  unfolding segments
  segments-Back start [] out asc le bound (seen, inl e) h = subst (λ x. Back k c from x out) e h
  segments-Back start [] out asc le bound (seen, inr m) h = absurd (Memᴰ.not-nil m)
  segments-Back start (end ∷ cuts) out ((lt, gt), asc) le bound rem h =
      let best = best_from start slots none in
      let segment = segment_of start end best in
      let (starts, ends, id) = segment_of-fields start end best in
      let grown =
        add_segment-Back k c from segment out
          (subst (λ x. x < segment.end) (sym starts) (subst (λ x. start < x) (sym ends) lt))
          (quiet-IsTrueSegment k c from to start end law le (bound end (Memᴰ.head refl))
            (Remaining-IsQuiet start end cuts asc le (bound end (Memᴰ.head refl)) rem))
          (subst (λ x. Back k c from x out) (sym starts) h) in
      segments-Back end cuts _ asc (omega (arith, le, lt)) (λ n m. bound n (Memᴰ.tail m))
        (Remaining-next start end cuts lt (bound end (Memᴰ.head refl)) rem)
        (subst (λ x. Back k c from x (add_segment segment out)) ends grown)

  IsProgram-snoc :
      (start at : ℕ) (xs : List ProgramSegment) (s : ProgramSegment)
      → IsProgram k c start s.start xs
      → s.start < s.end
      → IsTrueSegment k c s
      → s.end ≡ at
      → IsProgram k c start at (xs ++ s ∷ [])
  IsProgram-snoc start at [] s h lt true_s e = (sym h, lt, true_s, e)
  IsProgram-snoc start at (x ∷ xs) s (h, g, f, rest) lt true_s e =
      (h, g, f, IsProgram-snoc x.end at xs s rest lt true_s e)

  Back-IsProgram :
      (at : ℕ) (out : List ProgramSegment)
      → Back k c from at out
      → IsProgram k c from at (reverse out)
  Back-IsProgram at [] h = h
  Back-IsProgram at (s ∷ out) (e, lt, true_s, h) =
      subst (λ xs. IsProgram k c from at xs) (sym (reverse-cons s out))
        (IsProgram-snoc from at (reverse out) s (Back-IsProgram s.start out h) lt true_s e)

  cut_segments-IsProgram :
      (cuts : List ℕ)
      → IsAscending cuts
      → ((n : ℕ) → Memᴰ n cuts → (from ≤ n) × (n ≤ to))
      → ((n : ℕ) → Memᴰ n (edges from to slots) → Memᴰ n cuts)
      → Memᴰ from cuts
      → Memᴰ to cuts
      → IsProgram k c from to (cut_segments slots cuts)
  unfolding cut_segments
  cut_segments-IsProgram [] asc within seen first last = absurd (Memᴰ.not-nil first)
  cut_segments-IsProgram (start ∷ cuts) asc within seen first last =
      Back-IsProgram to (segments slots start cuts []) (
        segments-Back start cuts [] asc (within start (Memᴰ.head refl)).0
          (λ n m. (within n (Memᴰ.tail m)).1)
          (λ n m. before n (Memᴰ.cases_cons (seen n m)), ending (Memᴰ.cases_cons last))
          (begins first))
    where
      before : (n : ℕ) → (n ≡ start) ⊎ Memᴰ n cuts → (n ≤ start) ⊎ Memᴰ n cuts
      before n (inl e) = inl (omega (arith, e))
      before n (inr m) = inr m

      ending : (to ≡ start) ⊎ Memᴰ to cuts → (start ≡ to) ⊎ Memᴰ to cuts
      ending (inl e) = inl (sym e)
      ending (inr m) = inr m

      begins : Memᴰ from (start ∷ cuts) → from ≡ start
      begins (Memᴰ.head e) = e
      begins (Memᴰ.tail m) =
          let above = above-head start cuts from asc m in
          let low = (within start (Memᴰ.head refl)).0 in absurd (clash above low)
        where
          clash : start < from → from ≤ start → ⊥
          clash h g = omega (arith, h, g)

-- The segments of the preview cover the time from `from` to `to` without gaps, and at every instant of a
-- segment `ActiveInsert` names the insert whose id the segment has, or none where the id is empty, in a
-- calendar whose days each have a midnight, are in order and last at least an hour.
pub program_timeline-IsProgram :
    (k : KioskConfig) (c : Calendar) (from to : ℕ)
    → IsCalendar c
    → from < to
    → IsProgram k c from to (program_timeline k c from to)
unfolding program_timeline
program_timeline-IsProgram k c from to law ordered =
    cut_segments-IsProgram k c law from to (compact (sort ltb times))
      (compact-IsAscending _ (sort-IsSorted times))
      (λ n m. within n (Mem-sort ltb n times (Mem-compact n _ m)))
      (λ n m. among n (Memᴰ.tail (Memᴰ.tail m))) (among from (Memᴰ.head refl))
      (among to (Memᴰ.tail (Memᴰ.head refl)))
  where
    times : List ℕ
    times = from ∷ to ∷ edges from to (insert_slots k c from to)

    among : (n : ℕ) → Memᴰ n times → Memᴰ n (compact (sort ltb times))
    among n m = compact-Mem n _ (sort-Mem ltb n times m)

    within : (n : ℕ) → Memᴰ n times → (from ≤ n) × (n ≤ to)
    within n (Memᴰ.head e) = (omega (arith, e), omega (arith, e, ordered))
    within n (Memᴰ.tail (Memᴰ.head e)) = (omega (arith, e, ordered), omega (arith, e))
    within n (Memᴰ.tail (Memᴰ.tail m)) =
        let (low, high) = edges-inside from to (insert_slots k c from to) n m in
        (omega (arith, low), omega (arith, high))
