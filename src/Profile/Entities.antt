-- ===== src/Profile/Entities.antt =====
-- src/fb/domain/profile/entities.py, and the tables that the repository of profiles uses. Dates are
-- numbers.
use facebook_clone.Prelude.{ℕ, Option, none, some, List}
use facebook_clone.Shared.EntityId.{EntityId, Text}
use facebook_clone.Auth.Repository.{Users}

pub record Profile : Type 0 where
  pub id : EntityId
  pub user_id : EntityId
  pub bio : Text
  pub avatar_url : Option Text
  pub cover_photo_url : Option Text
  pub location : Option Text
  pub website : Option Text
  pub date_of_birth : Option ℕ
  pub created_at : Option ℕ
  pub updated_at : Option ℕ

-- `create`, with the arguments that some caller gives
abbrev pub create_profile :
    EntityId → EntityId → Text → Option Text → Option Text → Option Text → Profile
create_profile new_id user_id bio avatar_url location website = record {
  id = new_id;
  user_id = user_id;
  bio = bio;
  avatar_url = avatar_url;
  cover_photo_url = none;
  location = location;
  website = website;
  date_of_birth = none;
  created_at = none;
  updated_at = none;
}

abbrev pub update_bio : Text → Profile → Profile
update_bio bio p = record p { bio = bio }

abbrev pub update_avatar : Text → Profile → Profile
update_avatar url p = record p { avatar_url = some url }

abbrev pub update_cover_photo : Text → Profile → Profile
update_cover_photo url p = record p { cover_photo_url = some url }

abbrev pub update_location : Text → Profile → Profile
update_location location p = record p { location = some location }

abbrev pub update_website : Text → Profile → Profile
update_website website p = record p { website = some website }

pub record ProfileTables : Type 0 where
  pub users : Users
  pub profiles : List Profile
