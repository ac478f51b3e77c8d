-- ===== src/Tests.antt =====
-- Runs of the definitions on concrete inputs, and each theorem that has hypotheses at an input
-- that meets them.
mod Startup
mod Agent
mod Filters
mod Statistics
mod Service
