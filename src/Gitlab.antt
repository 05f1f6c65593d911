-- ===== src/Gitlab.antt =====
-- skills/gitlab-pat-ops/scripts/gitlab_ops: the reading of paged lists.
pub mod Pagination
mod Tests
