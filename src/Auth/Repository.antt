-- ===== src/Auth/Repository.antt =====
-- src/fb/infrastructure/repositories/user_repo.py, and the constraints of
-- src/fb/infrastructure/database/models/user.py. A row is the entity that the repository reads.
use facebook_clone.Prelude.{
  ℕ, Bool, true, ◌&&◌, ◌||◌, not, Option, none, some, List, ◌==◌, ltb, length, if◌then◌else◌,
}
use facebook_clone.Shared.Errors.{ok, err, value_error, data_error, integrity_error}
use facebook_clone.Shared.Effects.{Effect, gets}
use facebook_clone.Shared.EntityId.{EntityId, Text}
use facebook_clone.Shared.Text.{text_eq}
use facebook_clone.Shared.Table.{select, exists, update_where, scalar_one_or_none, add, stored}
use facebook_clone.Auth.Entities.{User}

abbrev pub Users : Type 0
Users = List User

abbrev pub has_id : EntityId → User → Bool
has_id i u = u.id == i

abbrev pub has_email : Text → User → Bool
has_email address u = text_eq u.email address

abbrev pub has_user_name : Text → User → Bool
has_user_name name u = text_eq u.user_name name

unfoldable pub find_by_id : EntityId → Effect Users (Option User)
find_by_id i = gets (λ users. scalar_one_or_none (select (has_id i) users))

unfoldable pub find_by_email : Text → Effect Users (Option User)
find_by_email address = gets (λ users. scalar_one_or_none (select (has_email address) users))

unfoldable pub find_by_user_name : Text → Effect Users (Option User)
find_by_user_name name = gets (λ users. scalar_one_or_none (select (has_user_name name) users))

-- `… is not None` of a query with LIMIT 1
unfoldable pub exists_by_email : Text → Users → Bool
exists_by_email address users = exists (has_email address) users

unfoldable pub exists_by_user_name : Text → Users → Bool
exists_by_user_name name users = exists (has_user_name name) users

-- `String(50)`, `String(255)` and `String(100)`
abbrev pub is_too_long : User → Bool
is_too_long u =
    ltb 50 (length u.user_name)
    || ltb 255 (length u.email)
    || ltb 255 (length u.hashed_password)
    || ltb 50 (length u.first_name)
    || ltb 50 (length u.last_name)
    || ltb 100 (length u.display_name)

-- Whether a row has a value of `u` that is unique in the table
abbrev pub clashes : User → User → Bool
clashes u row = has_id u.id row || has_email u.email row || has_user_name u.user_name row

unfoldable pub save : ℕ → User → Effect Users User
save now user users =
    let row = record user { is_active = true; created_at = some now; updated_at = some now } in
    if is_too_long row
    then (err data_error, users)
    else stored (λ rows t. rows) (add (not (exists (clashes row) users)) row users) users

-- The values that `update` assigns; the time of the update is the database's.
abbrev pub assign : ℕ → User → User → User
assign now u row = record row {
  user_name = u.user_name;
  email = u.email;
  hashed_password = u.hashed_password;
  first_name = u.first_name;
  last_name = u.last_name;
  display_name = u.display_name;
  date_of_birth = u.date_of_birth;
  is_active = u.is_active;
  updated_at = some now;
}

-- Whether another row has a value of `u` that is unique in the table
abbrev pub clashes_with_other : User → User → Bool
clashes_with_other u row =
    not (has_id u.id row) && (has_email u.email row || has_user_name u.user_name row)

-- What the constraints make of an update of a row
abbrev pub updated : ℕ → User → Option User → Effect Users User
updated now user none users = (err value_error, users)
updated now user (some row) users =
    if is_too_long user
    then (err data_error, users)
    else if exists (clashes_with_other user) users
    then (err integrity_error, users)
    else (ok (assign now user row), update_where (has_id user.id) (assign now user) users)

unfoldable pub update : ℕ → User → Effect Users User
update now user users = elim (scalar_one_or_none (select (has_id user.id) users)) [
  | err e ↦ (err e, users)
  | ok found ↦ updated now user found users
]
