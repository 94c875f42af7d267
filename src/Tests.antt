-- ===== src/Tests.antt =====
-- Concrete runs of the modelled code, and each stated property at concrete inputs.
mod Samples
mod Workflows
mod Callbacks
mod Queries
mod Tokens
mod Sessions
mod Calls
mod Access
mod Policies
mod Tables
mod Reviews
mod Scores
mod Rubrics
