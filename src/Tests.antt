-- ===== src/Tests.antt =====
-- Concrete runs: each theorem of the library at one input where its hypotheses hold.
mod Gate
mod Changes
mod Domain
mod Cloning
mod Ports
mod Database
mod Creation
mod Completions
mod Composing
