-- ===== src/Engine/Approval.antt =====
-- engine/approval_classes.py and engine/executors/approve.py: approval gates
pub mod Classes
pub mod Gate
