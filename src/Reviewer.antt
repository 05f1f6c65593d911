-- ===== src/Reviewer.antt =====
-- skills/complex-coding-reviewer/scripts/complex_coding_reviewer: the dispatch of a review.
pub mod Dispatch
mod Tests
