-- ===== src/Tests/Admins.antt =====
-- Administrative operations at concrete inputs.
use temis_sso_lab.Base.{ok, some, ◌≡◌, refl, [], ◌∷◌, ◌++◌, find, any, update_where}
use temis_sso_lab.Persistence.{Db, add_audit, add_grant}
use temis_sso_lab.Tokens.Refresh.{rotate_refresh}
use temis_sso_lab.Application.Admin.{suspend_user}
use temis_sso_lab.Application.Admin.Calls.{perform, suspend}
use temis_sso_lab.Application.Admin.Revocation.{Invalidated, perform-Invalidated}
use temis_sso_lab.Application.Admin.Audit.{entry, audit_logs-perform}
use temis_sso_lab.Tests.Fixtures.{toy_sha, small_db}

abbrev suspended_db : Db
suspended_db = (perform (suspend "left the lab") "root" "ann" 50 51 small_db).1

suspension : perform (suspend "left the lab") "root" "ann" 50 51 small_db ≡ (ok tt, suspended_db)
unfolding perform suspend_user find any
suspension = refl

perform-Invalidated_example : Invalidated "ann" small_db suspended_db
perform-Invalidated_example =
    perform-Invalidated (suspend "left the lab") "root" "ann" 50 51 small_db suspended_db suspension

-- A grant of the administrator stays exchangeable.
other_rotation : rotate_refresh toy_sha "root-refresh" "next" 60 61 62 suspended_db ≡ (
  ok (some ("root", "temis-lab", "next")),
  (rotate_refresh toy_sha "root-refresh" "next" 60 61 62 suspended_db).1,
)
unfolding perform suspend_user find any update_where rotate_refresh add_grant add_audit
other_rotation = refl

audit_logs-perform_example :
    suspended_db.audit_logs
    ≡ small_db.audit_logs ++ entry (suspend "left the lab") "root" "ann" 51 small_db.audit_logs ∷ []
audit_logs-perform_example =
    audit_logs-perform (suspend "left the lab") "root" "ann" 50 51 small_db suspended_db suspension
