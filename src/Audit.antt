-- ===== src/Audit.antt =====
-- app/services/audit_log_service.py: `create_audit_log`, for the actions that concern bookings and customers.
use appointment_voice_saas.Common.{ℕ, String, Option, ◌∷◌, Bool, if◌then◌else◌}
use appointment_voice_saas.Tables.{Db, AuditLog, AuditAction}
use appointment_voice_saas.Session.{Action, pure, modify, commit, fresh_id, ◌>>=◌, ◌>>◌}
use appointment_voice_saas.Env.{Env}

abbrev pub add_audit_log : AuditLog → Db → Db
add_audit_log row db = record db { audit_logs = row ∷ db.audit_logs }

-- The keyword `commit` is the argument `commits`; the flush alone is part of `modify`.
unfoldable pub create_audit_log :
    Env → ℕ → Option ℕ → AuditAction → Option ℕ → Option String → Bool → Action AuditLog
create_audit_log env tenant_id admin_id action target_booking_id source commits = do
  id ← fresh_id
  let row : AuditLog = record {
    id = id;
    tenant_id = tenant_id;
    admin_id = admin_id;
    action = action;
    target_booking_id = target_booking_id;
    source = source;
    created_at = env.now;
  }
  modify (add_audit_log row)
  if commits then commit else pure tt
  pure row
