-- ===== src/Tests.antt =====
-- Tests: runs of the model on small inputs, and each property at one of them.
mod Samples
mod Runs
mod Witnesses
mod Setup
mod Tree
mod Ids
mod Dependent
mod Evidence
mod Application
