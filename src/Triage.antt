-- ===== src/Triage.antt =====
-- src/prxref/triage.py: unified-diff parsing, file risk scoring and chunking.
pub mod Diff
pub mod Lines
pub mod Branches
pub mod Parse
pub mod Body
pub mod Numbers
pub mod Loop
pub mod Files
pub mod FormFeed
pub mod Score
pub mod Trim
pub mod Pieces
pub mod Split
pub mod Plan
pub mod Tests
