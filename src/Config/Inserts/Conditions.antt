-- ===== src/Config/Inserts/Conditions.antt =====
-- Inserts that depend on the last value of an MQTT topic: `Holds`, `ConditionTopics` and `InsertsWhere` of
-- internal/config/inserts.go. A `lookup` that is nil leaves the configuration, and is not modelled.
use kiosk_mate.Common.{
  Bool, true, false, not, ◌&&◌, ◌||◌, Option, none, some, List, [], ◌∷◌, ◌++◌, map, if◌then◌else◌,
  Text, equal_fold, trim_space, member_text,
}
use kiosk_mate.Config.Kiosk.{KioskConfig, PageInsert, InsertCondition}

-- `none` is a topic that was never seen.
unfoldable pub holds : InsertCondition → Option Text → Bool
holds c none = false
holds c (some value) =
    let equal = equal_fold (trim_space value) (trim_space c.value) in
    if c.negate then not equal else equal

-- The loop of `ConditionTopics`, with the topics so far.
unfoldable pub condition_topics_from : List PageInsert → List Text → List Text
condition_topics_from [] out = out
condition_topics_from (p ∷ inserts) out = condition_topics_from inserts (elim p.condition [
  | none ↦ out
  | some c ↦ if not p.disabled && not (member_text c.topic out) then out ++ c.topic ∷ [] else out
])

unfoldable pub condition_topics : KioskConfig → List Text
unfolding condition_topics_from
condition_topics k = condition_topics_from k.inserts []

abbrev pub insert_where : (Text → Option Text) → PageInsert → PageInsert
insert_where lookup p = elim p.condition [
  | none ↦ p
  | some c ↦ if p.disabled || holds c (lookup c.topic) then p else record p { disabled = true }
]

unfoldable pub inserts_where : (Text → Option Text) → KioskConfig → KioskConfig
inserts_where lookup k = record k { inserts = map (insert_where lookup) k.inserts }
