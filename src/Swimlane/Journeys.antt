-- ===== src/Swimlane/Journeys.antt =====
-- architecture/_gen/journeys.py: the two journeys.
pub mod J1
pub mod J2
