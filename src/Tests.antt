-- ===== src/Tests.antt =====
-- Runs of the modelled code on concrete inputs, in the modules below.
mod DictRuns
mod ExpiryRuns
mod ShardRuns
mod EvictionRuns
mod SlotRuns
mod LogRuns
mod FramingRuns
mod MemoryRuns
mod GlobRuns
mod RespRuns
mod WalkRuns
