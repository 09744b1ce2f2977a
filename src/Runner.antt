-- ===== src/Runner.antt =====
-- src/sdlc/requirement_runner.py, `sdlc worker run`: one cycle polls, claims, dispatches and
-- finalizes at most one Requirement.
pub mod Report
pub mod Scope
pub mod Selection
pub mod Claim
pub mod Finalize
pub mod Cycle
pub mod Project
pub mod Loop
pub mod Workers
