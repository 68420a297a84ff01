-- ===== src/Profile/Editing.antt =====
-- src/fb/application/profile/update_profile.py, upload_avatar.py and get_profile.py
use facebook_clone.Prelude.{ℕ, Bool, ◌||◌, not, Option, none, some, List, []}
use facebook_clone.Shared.Errors.{invalid_file_type}
use facebook_clone.Shared.Effects.{Effect, pure, lift, raise_if, ◌>>=◌, ◌>>◌}
use facebook_clone.Shared.EntityId.{EntityId, Text, Libraries, from_str}
use facebook_clone.Shared.Text.{codes, text_eq}
use facebook_clone.UnitOfWork.{UnitOfWork, async_with, committing, on_session}
use facebook_clone.Auth.Repository
use facebook_clone.Auth.Entities.{User}
use facebook_clone.Media.Uploads.{FileStorage}
use facebook_clone.Profile.Entities.{
  Profile, ProfileTables, create_profile, update_bio, update_avatar, update_location,
  update_website,
}
use facebook_clone.Profile.Repository.{find_by_user_id, save, update}

pub record ProfileOutput : Type 0 where
  pub id : Text
  pub user_id : Text
  pub bio : Text
  pub avatar_url : Option Text
  pub cover_photo_url : Option Text
  pub location : Option Text
  pub website : Option Text
  pub display_name : Text

pub record UpdateProfileInput : Type 0 where
  pub user_id : Text
  pub bio : Option Text
  pub location : Option Text
  pub website : Option Text

pub record UploadAvatarInput : Type 0 where
  pub user_id : Text
  pub file_data : List ℕ
  pub filename : Text
  pub content_type : Text

-- `user.display_name if user else ""`
abbrev pub display_name_of : Option User → Text
display_name_of none = []
display_name_of (some user) = user.display_name

abbrev pub profile_output : Libraries → Profile → Option User → ProfileOutput
profile_output libs p user = record {
  id = libs.print_uuid p.id;
  user_id = libs.print_uuid p.user_id;
  bio = p.bio;
  avatar_url = p.avatar_url;
  cover_photo_url = p.cover_photo_url;
  location = p.location;
  website = p.website;
  display_name = display_name_of user;
}

-- `find_by_id` of the repository of users
abbrev pub find_user : EntityId → Effect ProfileTables (Option User)
find_user i d = let (r, _) = Repository.find_by_id i d.users in (r, d)

-- `if x is not None: profile = …`
abbrev pub if_given : Option Text → (Text → Profile → Profile) → Profile → Profile
if_given none change p = p
if_given (some text) change p = change text p

-- `input_data.bio or ""`
abbrev pub or_empty : Option Text → Text
or_empty none = []
or_empty (some text) = text

-- `if profile is None: save(…) else: update(…)`
abbrev pub save_or_update :
    ℕ → Profile → (Profile → Profile) → Option Profile → Effect ProfileTables Profile
save_or_update now created change none = save now created
save_or_update now created change (some p) = update now (change p)

-- The three changes of an existing profile
abbrev pub changed : UpdateProfileInput → Profile → Profile
changed input p =
    if_given input.website update_website
      (if_given input.location update_location (if_given input.bio update_bio p))

-- The calls on profiles of `UpdateProfileUseCase.execute`
unfoldable pub update_profile :
    ℕ → EntityId → EntityId → UpdateProfileInput → Effect ProfileTables Profile
update_profile now new_id entity_id input = do
  profile ← find_by_user_id entity_id
  save_or_update now
      (create_profile new_id entity_id (or_empty input.bio) none input.location input.website)
      (changed input) profile

-- The calls on profiles of `UploadAvatarUseCase.execute`
unfoldable pub change_avatar : ℕ → EntityId → EntityId → Text → Effect ProfileTables Profile
change_avatar now new_id entity_id avatar_url = do
  profile ← find_by_user_id entity_id
  save_or_update now (create_profile new_id entity_id [] (some avatar_url) none none)
      (update_avatar avatar_url) profile

-- `UpdateProfileUseCase.execute`: the user is read after the inner unit of work.
unfoldable pub update_profile_use_case :
    Libraries → ℕ → EntityId → UpdateProfileInput → Effect (UnitOfWork ProfileTables) ProfileOutput
update_profile_use_case libs now new_id input = do
  entity_id ← lift (from_str libs input.user_id)
  profile ← async_with (committing (update_profile now new_id entity_id input))
  user ← on_session (find_user entity_id)
  pure (profile_output libs profile user)

-- `ALLOWED_IMAGE_TYPES`
abbrev pub is_allowed_image : Text → Bool
is_allowed_image text =
    text_eq text (codes "image/jpeg")
    || text_eq text (codes "image/png")
    || text_eq text (codes "image/gif")
    || text_eq text (codes "image/webp")

-- `UploadAvatarUseCase.execute`
unfoldable pub upload_avatar_use_case :
    Libraries
    → FileStorage
    → ℕ
    → EntityId
    → UploadAvatarInput
    → Effect (UnitOfWork ProfileTables) ProfileOutput
upload_avatar_use_case libs storage now new_id input = do
  raise_if (not (is_allowed_image input.content_type)) invalid_file_type
  entity_id ← lift (from_str libs input.user_id)
  avatar_url ← lift (storage.upload input.file_data input.filename input.content_type)
  profile ← async_with (committing (change_avatar now new_id entity_id avatar_url))
  user ← on_session (find_user entity_id)
  pure (profile_output libs profile user)

-- The answer of `GetProfileUseCase.execute`, where there is a profile
abbrev pub with_user :
    Libraries → EntityId → Option Profile → Effect ProfileTables (Option ProfileOutput)
with_user libs entity_id none = pure none
with_user libs entity_id (some p) = do
  user ← find_user entity_id
  pure (some (profile_output libs p user))

-- `GetProfileUseCase.execute`
unfoldable pub get_profile : Libraries → Text → Effect ProfileTables (Option ProfileOutput)
get_profile libs user_id = do
  entity_id ← lift (from_str libs user_id)
  profile ← find_by_user_id entity_id
  with_user libs entity_id profile
