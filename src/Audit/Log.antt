-- ===== src/Audit/Log.antt =====
-- The audit log of crates/api/src/routes/audit.rs: what a page of it holds.
use hkgov_rethink.Prelude.{Bool, ◌&&◌, List}
use hkgov_rethink.Audit.Provenance.{ProvenanceRecord}
use hkgov_rethink.Audit.Routes.{AuditQuery, is_since, is_of_kind, is_by}

-- What a query asks of a record.
abbrev pub meets : AuditQuery → ProvenanceRecord → Bool
meets q r = is_since q r && is_of_kind q r && is_by q r
