-- ===== src/Middleware/Perm.antt =====
-- The permissions of middleware/permissions.go.
use stonesuite_notify.Base.{String}

abbrev pub notification_read : String
notification_read = "notification:read"

abbrev pub notification_update : String
notification_update = "notification:update"

abbrev pub preference_read : String
preference_read = "preference:read"

abbrev pub preference_update : String
preference_update = "preference:update"

abbrev pub push_manage : String
push_manage = "push:manage"

abbrev pub notification_admin : String
notification_admin = "notification:admin"

abbrev pub preference_admin : String
preference_admin = "preference:admin"

abbrev pub audit_read : String
audit_read = "audit:read"
