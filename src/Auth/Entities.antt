-- ===== src/Auth/Entities.antt =====
-- src/fb/domain/auth/entities.py, and the table of src/fb/infrastructure/database/models/user.py.
-- Dates are numbers.
use facebook_clone.Prelude.{ℕ, Bool, true, Option, none, some, ◌∷◌, ◌++◌}
use facebook_clone.Shared.Errors.{Result, ok, err}
use facebook_clone.Shared.EntityId.{EntityId, Text}
use facebook_clone.Shared.Text.{strip}
use facebook_clone.Auth.Values.{email, user_name, hashed_password}

pub record User : Type 0 where
  pub id : EntityId
  pub user_name : Text
  pub email : Text
  pub hashed_password : Text
  pub first_name : Text
  pub last_name : Text
  pub display_name : Text
  pub is_active : Bool
  pub date_of_birth : Option ℕ
  pub created_at : Option ℕ
  pub updated_at : Option ℕ

-- `f"{first_name} {last_name}".strip()`
abbrev pub full_name : Text → Text → Text
full_name first last = strip (first ++ 32 ∷ last)

-- `User.create`
unfoldable pub create_user : EntityId → Text → Text → Text → Text → Text → Option ℕ → Result User
create_user new_id name address hash first last birthday = elim (user_name name) [
  | err e ↦ err e
  | ok n ↦ elim (email address) [
    | err e ↦ err e
    | ok a ↦ elim (hashed_password hash) [
      | err e ↦ err e
      | ok h ↦ ok (record {
        id = new_id;
        user_name = n;
        email = a;
        hashed_password = h;
        first_name = first;
        last_name = last;
        display_name = full_name first last;
        is_active = true;
        date_of_birth = birthday;
        created_at = none;
        updated_at = none;
      })
    ]
  ]
]

-- `new if new is not None else old`
abbrev pub or_old {ℓ} : {A : Type ℓ} → Option A → A → A
or_old none old = old
or_old (some new) old = new

-- `User.update_profile_fields`
unfoldable pub update_profile_fields : Option Text → Option Text → Option ℕ → User → User
update_profile_fields first last birthday user = record user {
  first_name = or_old first user.first_name;
  last_name = or_old last user.last_name;
  date_of_birth = elim birthday [ none ↦ user.date_of_birth | some b ↦ some b ];
  display_name = full_name (or_old first user.first_name) (or_old last user.last_name);
}

-- `User.change_password`
unfoldable pub change_password : Text → User → Result User
change_password hash user = elim (hashed_password hash) [
  | err e ↦ err e
  | ok h ↦ ok (record user { hashed_password = h })
]
