-- ===== src/Tests/Grants.antt =====
-- Refresh grants at concrete inputs.
use temis_sso_lab.Base.{ok, none, some, ◌≡◌, refl, find, any, update_where}
use temis_sso_lab.Persistence.{Db, add_grant}
use temis_sso_lab.Tokens.Refresh.{rotate_refresh}
use temis_sso_lab.Tokens.Refresh.SingleUse.{IsKeyed, rotate_refresh_once}
use temis_sso_lab.Tests.Fixtures.{toy_sha, small_db}

abbrev rotated_db : Db
rotated_db = (rotate_refresh toy_sha "ann-refresh" "next" 10 11 12 small_db).1

small_db-IsKeyed : IsKeyed small_db.grants
unfolding any
small_db-IsKeyed = (refl, (refl, tt))

rotation :
    rotate_refresh toy_sha "ann-refresh" "next" 10 11 12 small_db
    ≡ (ok (some ("ann", "temis-lab", "next")), rotated_db)
unfolding rotate_refresh find any update_where add_grant
rotation = refl

rotate_refresh_once_example :
    rotate_refresh toy_sha "ann-refresh" "third" 20 21 22 rotated_db ≡ (ok none, rotated_db)
rotate_refresh_once_example =
    rotate_refresh_once toy_sha "ann-refresh" "next" "third" 10 11 12 20 21 22 small_db
      small_db-IsKeyed rotation
