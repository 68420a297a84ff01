-- ===== src/Profile/Tests.antt =====
-- The theorem on profiles at small tables: user 1 has a profile, and user 2 has another.
use facebook_clone.Prelude.{none, some, [], ◌∷◌}
use facebook_clone.Shared.Text.{codes}
use facebook_clone.Profile.Entities.{Profile, ProfileTables}
use facebook_clone.Profile.Editing.{UpdateProfileInput}

abbrev one : Profile
one = record {
  id = 70;
  user_id = 1;
  bio = codes "a";
  avatar_url = none;
  cover_photo_url = none;
  location = none;
  website = some (codes "b");
  date_of_birth = none;
  created_at = some 4;
  updated_at = some 4;
}

abbrev tables : ProfileTables
tables = record { users = []; profiles = one ∷ record one { id = 71; user_id = 2 } ∷ [] }

abbrev input : UpdateProfileInput
input = record { user_id = 1 ∷ []; bio = some (codes "c"); location = none; website = none }
