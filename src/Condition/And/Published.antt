-- ===== src/Condition/And/Published.antt =====
-- The loop of an AND goes through the cycles of its messages.
use outage.Time.{Time}
use outage.Condition.And.Cycles.{Cycles}
use outage.Condition.And.Kept.{Kept}
