-- ===== src/Profile/Repository.antt =====
-- src/fb/infrastructure/repositories/profile_repo.py, and the constraints of
-- src/fb/infrastructure/database/models/profile.py. A row is the entity that the repository reads.
use facebook_clone.Prelude.{
  ℕ, Bool, true, false, ◌&&◌, ◌||◌, not, Option, none, some, List, map, ◌==◌, ltb, length,
  if◌then◌else◌,
}
use facebook_clone.Shared.Errors.{ok, err, value_error, data_error}
use facebook_clone.Shared.Effects.{Effect, gets}
use facebook_clone.Shared.EntityId.{EntityId, Text}
use facebook_clone.Shared.Text.{text_eq}
use facebook_clone.Shared.Table.{
  select, exists, last, update_where, scalar_one_or_none, add, stored,
}
use facebook_clone.Auth.Repository
use facebook_clone.Profile.Entities.{Profile, ProfileTables}

abbrev pub has_id : EntityId → Profile → Bool
has_id i p = p.id == i

abbrev pub has_user : EntityId → Profile → Bool
has_user i p = p.user_id == i

-- `by_user_id.get(…)` for each user, where a later row replaces an earlier one
unfoldable pub find_by_user_ids : List EntityId → ProfileTables → List (Option Profile)
find_by_user_ids user_ids d = map (λ i. last (select (has_user i) d.profiles)) user_ids

unfoldable pub find_by_user_id : EntityId → Effect ProfileTables (Option Profile)
find_by_user_id user_id = gets (λ d. scalar_one_or_none (select (has_user user_id) d.profiles))

unfoldable pub exists_by_user_id : EntityId → ProfileTables → Bool
exists_by_user_id user_id d = exists (has_user user_id) d.profiles

-- More than the column has
abbrev pub exceeds : ℕ → Option Text → Bool
exceeds n none = false
exceeds n (some text) = ltb n (length text)

-- `String(500)` and `String(200)`
abbrev pub is_too_long : Profile → Bool
is_too_long p =
    exceeds 500 p.avatar_url
    || exceeds 500 p.cover_photo_url
    || exceeds 200 p.location
    || exceeds 500 p.website

-- Whether a row has a value of `p` that is unique in the table
abbrev pub clashes : Profile → Profile → Bool
clashes p row = has_id p.id row || has_user p.user_id row

-- The key of the user, and the unique columns
abbrev pub is_permitted : ProfileTables → Profile → Bool
is_permitted d p =
    exists (Repository.has_id p.user_id) d.users && not (exists (clashes p) d.profiles)

unfoldable pub save : ℕ → Profile → Effect ProfileTables Profile
save now profile d =
    let row = record profile { created_at = some now; updated_at = some now } in
    if is_too_long row
    then (err data_error, d)
    else stored (λ rows t. record t { profiles = rows }) (add (is_permitted d row) row d.profiles) d

abbrev pub same_text : Option Text → Option Text → Bool
same_text none none = true
same_text (some a) (some b) = text_eq a b
same_text _ _ = false

abbrev pub same_date : Option ℕ → Option ℕ → Bool
same_date none none = true
same_date (some a) (some b) = a == b
same_date _ _ = false

-- Whether an update has no new value, so that no row is written
abbrev pub is_same : Profile → Profile → Bool
is_same p row =
    text_eq row.bio p.bio
    && same_text row.avatar_url p.avatar_url
    && same_text row.cover_photo_url p.cover_photo_url
    && same_text row.location p.location
    && same_text row.website p.website
    && same_date row.date_of_birth p.date_of_birth

-- The values that `update` assigns; the time of the update is the database's.
abbrev pub assign : ℕ → Profile → Profile → Profile
assign now p row = record row {
  bio = p.bio;
  avatar_url = p.avatar_url;
  cover_photo_url = p.cover_photo_url;
  location = p.location;
  website = p.website;
  date_of_birth = p.date_of_birth;
  updated_at = if is_same p row then row.updated_at else some now;
}

-- What the constraints make of an update of a row
abbrev pub updated : ℕ → Profile → Option Profile → Effect ProfileTables Profile
updated now p none d = (err value_error, d)
updated now p (some row) d = if is_too_long p then (err data_error, d) else (
  ok (assign now p row),
  record d { profiles = update_where (has_user p.user_id) (assign now p) d.profiles },
)

unfoldable pub update : ℕ → Profile → Effect ProfileTables Profile
update now p d = elim (scalar_one_or_none (select (has_user p.user_id) d.profiles)) [
  | err e ↦ (err e, d)
  | ok found ↦ updated now p found d
]
