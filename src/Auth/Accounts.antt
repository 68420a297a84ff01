-- ===== src/Auth/Accounts.antt =====
-- src/fb/application/auth/register.py and edit_user.py
use facebook_clone.Prelude.{ℕ, Bool, Option, none, some}
use facebook_clone.Shared.Errors.{
  ok, email_already_exists, user_name_already_exists, user_not_found,
}
use facebook_clone.Shared.Effects.{Effect, pure, lift, gets, raise_if, or_raise, ◌>>=◌, ◌>>◌}
use facebook_clone.Shared.EntityId.{EntityId, Text, Libraries, from_str}
use facebook_clone.UnitOfWork.{UnitOfWork, async_with, committing}
use facebook_clone.Auth.Entities.{User, create_user, update_profile_fields, change_password}
use facebook_clone.Auth.Repository.{
  Users, find_by_id, exists_by_email, exists_by_user_name, save, update,
}
use facebook_clone.Auth.Tokens.{
  Jwt, Hasher, TokenSettings, create_access_token, create_refresh_token,
}

pub record RegisterInput : Type 0 where
  pub user_name : Text
  pub email : Text
  pub first_name : Text
  pub last_name : Text
  pub password : Text
  pub birthday : Option ℕ

pub record TokenOutput : Type 0 where
  pub access_token : Text
  pub refresh_token : Text

pub record EditUserInput : Type 0 where
  pub user_id : Text
  pub first_name : Option Text
  pub last_name : Option Text
  pub birthday : Option ℕ
  pub password : Option Text

pub record UserOutput : Type 0 where
  pub id : Text
  pub user_name : Text
  pub email : Text
  pub first_name : Text
  pub last_name : Text
  pub display_name : Text
  pub is_active : Bool

-- The two tokens of a user
abbrev pub token_pair : Libraries → Jwt → TokenSettings → ℕ → User → TokenOutput
token_pair libs jwt settings now user = record {
  access_token = create_access_token jwt settings now (libs.print_uuid user.id) user.email;
  refresh_token = create_refresh_token jwt settings now (libs.print_uuid user.id);
}

abbrev pub user_output : Libraries → User → UserOutput
user_output libs user = record {
  id = libs.print_uuid user.id;
  user_name = user.user_name;
  email = user.email;
  first_name = user.first_name;
  last_name = user.last_name;
  display_name = user.display_name;
  is_active = user.is_active;
}

-- The repository calls of `RegisterUseCase.execute`
unfoldable pub sign_up : Hasher → ℕ → ℕ → EntityId → RegisterInput → Effect Users User
sign_up hasher salt now new_id input = do
  email_taken ← gets (λ users. ok (exists_by_email input.email users))
  raise_if email_taken email_already_exists
  name_taken ← gets (λ users. ok (exists_by_user_name input.user_name users))
  raise_if name_taken user_name_already_exists
  user ← lift (
      create_user new_id input.user_name input.email (hasher.hash salt input.password)
        input.first_name input.last_name input.birthday)
  save now user

-- `RegisterUseCase.execute`
unfoldable pub register_use_case :
    Libraries
    → Jwt
    → TokenSettings
    → Hasher
    → ℕ
    → ℕ
    → EntityId
    → RegisterInput
    → Effect (UnitOfWork Users) TokenOutput
register_use_case libs jwt settings hasher salt now new_id input = async_with (do
  saved_user ← committing (sign_up hasher salt now new_id input)
  pure (token_pair libs jwt settings now saved_user))

-- `if input_data.password is not None`
abbrev pub with_password : Hasher → ℕ → Option Text → User → Effect Users User
with_password hasher salt none user = pure user
with_password hasher salt (some password) user =
    lift (change_password (hasher.hash salt password) user)

-- The repository calls of `EditUserUseCase.execute`
unfoldable pub edit : Hasher → ℕ → ℕ → EntityId → EditUserInput → Effect Users User
edit hasher salt now user_id input = do
  found ← find_by_id user_id
  user ← or_raise found user_not_found
  changed ←
      with_password hasher salt input.password
        (update_profile_fields input.first_name input.last_name input.birthday user)
  update now changed

-- `EditUserUseCase.execute`
unfoldable pub edit_user_use_case :
    Libraries → Hasher → ℕ → ℕ → EditUserInput → Effect (UnitOfWork Users) UserOutput
edit_user_use_case libs hasher salt now input = async_with (do
  updated ←
      committing
        (do user_id ← lift (from_str libs input.user_id); edit hasher salt now user_id input)
  pure (user_output libs updated))
