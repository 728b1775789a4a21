-- ===== src/State.antt =====
-- src/remote_sandbox/state.py: the durable store of a workspace.
pub mod Codec
pub mod Tables
pub mod Bases
pub mod Events
pub mod Echoes
pub mod Conflicts
pub mod Initial
pub mod Replaced
pub mod Requeue
pub mod Requeued
pub mod Journalled
pub mod ReadBack
pub mod Acknowledged
pub mod Unresolved
pub mod Drained
pub mod Recorded
pub mod Untouched
pub mod Completed
