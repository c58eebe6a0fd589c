-- ===== src/AuditLog.antt =====
-- frontend/src/mystic_auth/audit_log: what the audit log screens compute, apart from rendering.
pub mod AccessChanges
pub mod TimeRange
