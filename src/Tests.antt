-- ===== src/Tests.antt =====
-- Runs of the modelled code on concrete inputs, and the theorems at such inputs.
mod Inputs
mod PathRuns
mod PlanRuns
mod EngineRuns
mod JournalRuns
mod StoreRuns
mod AgentRuns
mod BaseRuns
mod SyncRuns
mod PolicyRuns
mod InotifyRuns
mod InitialRuns
