-- ===== src/Tests.antt =====
-- Concrete runs of the theorems and of the definitions.
mod Sessions
mod Retries
mod Truncation
mod Registration
mod Compactions
mod Schemas
mod Pipelines
mod Agents
mod Edits
mod Todos
mod Operations
mod Subagents
