-- ===== src/Quota.antt =====
-- The webhooks and the controller together: whether the objects of a project stay within its
-- limits, however creations, deletions and reconciliations follow each other.
pub mod Admitted
pub mod Sums
pub mod Tally
pub mod Recounted
pub mod History
pub mod Bounded
pub mod Compute
pub mod Asked
pub mod Kept
