-- ===== src/Sync.antt =====
-- src/remote_sandbox/engine.py: one cycle of the synchronisation.
pub mod Transfer
pub mod Machine
pub mod Outside
pub mod Sources
pub mod Actions
pub mod Mutate
pub mod Results
pub mod Commit
pub mod Execute
pub mod Drift
pub mod Audit
pub mod Gather
pub mod Run
pub mod Seed
pub mod Grown
pub mod Examined
pub mod Drifted
pub mod Keeps
pub mod Quiet
pub mod Cycle
pub mod Failed
pub mod Turns
pub mod Acknowledged
