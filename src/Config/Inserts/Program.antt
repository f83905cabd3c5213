-- ===== src/Config/Inserts/Program.antt =====
-- Which insert is on screen: `wins`, `ActiveInsert`, `NextInsertChange` and `ProgramTimeline` of
-- internal/config/inserts.go.
use kiosk_mate.Common.{
  ℕ, ◌+◌, ◌*◌, Bool, not, ◌&&◌, ◌||◌, Option, none, some, List, [], ◌∷◌, ◌==◌, ltb, leb,
  if◌then◌else◌, sort, compact, ℤ, pos, ltb_ℤ, Text, text_eq,
}
use mathlib.Core.List.{reverse}
use kiosk_mate.Supervisor.Window.{second, hour}
use kiosk_mate.Config.Kiosk.{KioskConfig}
use kiosk_mate.Config.Inserts.{InsertSlot, Calendar, insert_slots}

-- A higher priority wins, then the insert that is listed first.
abbrev pub wins : InsertSlot → InsertSlot → Bool
wins a b =
    ltb_ℤ b.insert.priority a.insert.priority
    || (not (ltb_ℤ a.insert.priority b.insert.priority) && ltb a.index b.index)

-- `!now.Before(slot.Start) && now.Before(slot.End)`
abbrev pub is_running : ℕ → InsertSlot → Bool
is_running now slot = leb slot.start now && ltb now slot.end

abbrev pub better : InsertSlot → Option InsertSlot → Option InsertSlot
better slot none = some slot
better slot (some best) = if wins slot best then some slot else some best

-- The loop that looks for the winner, with the best so far.
unfoldable pub best_from : ℕ → List InsertSlot → Option InsertSlot → Option InsertSlot
best_from now [] best = best
best_from now (slot ∷ slots) best =
    best_from now slots (if is_running now slot then better slot best else best)

unfoldable pub active_insert : KioskConfig → Calendar → ℕ → Option InsertSlot
unfolding best_from
active_insert k c now = best_from now (insert_slots k c now (now + second)) none

abbrev pub sooner_change : ℕ → ℕ → Option ℕ → Option ℕ
sooner_change now at next =
    if ltb now at
    then (elim next [ none ↦ some at | some n ↦ if ltb at n then some at else some n ])
    else next

unfoldable pub next_from : ℕ → List InsertSlot → Option ℕ → Option ℕ
next_from now [] next = next
next_from now (slot ∷ slots) next =
    next_from now slots (sooner_change now slot.end (sooner_change now slot.start next))

unfoldable pub next_insert_change : KioskConfig → Calendar → ℕ → Option ℕ
unfolding next_from
next_insert_change k c now = next_from now (insert_slots k c now (now + 48 * hour)) none

pub record ProgramSegment : Type 0 where
  pub start : ℕ
  pub end : ℕ
  pub insert_id : Text
  pub name : Text
  pub page_id : Text
  pub priority : ℤ

abbrev pub inside : ℕ → ℕ → ℕ → Bool
inside from to at = ltb from at && ltb at to

abbrev pub keep_inside : ℕ → ℕ → ℕ → List ℕ → List ℕ
keep_inside from to at rest = if inside from to at then at ∷ rest else rest

-- The starts and ends of the slots between `from` and `to`; the cuts are sorted afterwards.
unfoldable pub edges : ℕ → ℕ → List InsertSlot → List ℕ
edges from to [] = []
edges from to (slot ∷ slots) =
    keep_inside from to slot.start (keep_inside from to slot.end (edges from to slots))

abbrev pub segment_of : ℕ → ℕ → Option InsertSlot → ProgramSegment
segment_of start end none = record {
  start = start;
  end = end;
  insert_id = [];
  name = [];
  page_id = [];
  priority = pos 0;
}
segment_of start end (some best) = record {
  start = start;
  end = end;
  insert_id = best.insert.id;
  name = best.insert.name;
  page_id = best.insert.page_id;
  priority = best.insert.priority;
}

-- A segment like the last one lengthens it. The newest segment stands first.
abbrev pub add_segment : ProgramSegment → List ProgramSegment → List ProgramSegment
add_segment segment [] = segment ∷ []
add_segment segment (last ∷ out) =
    if text_eq last.insert_id segment.insert_id && last.end == segment.start
    then record last { end = segment.end } ∷ out
    else segment ∷ last ∷ out

-- The loop over the cuts, behind the cut `start`.
unfoldable pub segments : List InsertSlot → ℕ → List ℕ → List ProgramSegment → List ProgramSegment
unfolding best_from
segments slots start [] out = out
segments slots start (end ∷ cuts) out =
    segments slots end cuts (add_segment (segment_of start end (best_from start slots none)) out)

unfoldable pub cut_segments : List InsertSlot → List ℕ → List ProgramSegment
unfolding segments
cut_segments slots [] = []
cut_segments slots (start ∷ cuts) = reverse (segments slots start cuts [])

unfoldable pub program_timeline : KioskConfig → Calendar → ℕ → ℕ → List ProgramSegment
unfolding cut_segments edges
program_timeline k c from to =
    let slots = insert_slots k c from to in
    cut_segments slots (compact (sort ltb (from ∷ to ∷ edges from to slots)))
