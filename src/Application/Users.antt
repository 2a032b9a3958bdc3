-- ===== src/Application/Users.antt =====
-- src/temis_sso/application/users.py: the directory of the lab's first steps.
use temis_sso_lab.Base.{String, ◌==◌, Option, none, some, if◌then◌else◌}

pub record UserProfile : Type 0 where
  pub user_id : String
  pub email : String

-- `UserDirectory.by_id`
unfoldable pub by_id : String → Option UserProfile
by_id user_id =
    if user_id == "learner-001"
    then some (record { user_id = "learner-001"; email = "learner@lab.invalid" })
    else none
