-- ===== src/Profile/Outcomes.antt =====
-- What is read of a profile after an update.
use facebook_clone.Prelude.{
  length, ltb, false, Bool, ◌||◌, not, Option, [], ℕ, ◌≡◌, not, Option, none, some, ◌==◌,
}
use facebook_clone.Shared.Errors.{Result, ok, err}
use facebook_clone.Shared.EntityId.{EntityId, Text}
use facebook_clone.Shared.Table.{exists}
use facebook_clone.Profile.Entities.{Profile, ProfileTables, create_profile}
use facebook_clone.Profile.Editing.{UpdateProfileInput, or_empty}

-- A text that is given, or else what was there
abbrev pub given : Option Text → Text → Text
given none old = old
given (some text) old = text

abbrev pub given_or : Option Text → Option Text → Option Text
given_or none old = old
given_or (some text) old = some text

-- A text that is longer than a column
abbrev pub is_longer : ℕ → Option Text → Bool
is_longer n none = false
is_longer n (some text) = ltb n (length text)

-- The values that were asked for, and where none was given those from before
abbrev pub HasValues : EntityId → UpdateProfileInput → Option Profile → Result Profile → Type 0
HasValues i input old (err e) = Unit
HasValues i input none (ok p) =
    (p.user_id ≡ i)
    × (p.bio ≡ given input.bio [])
    × (p.location ≡ input.location)
    × (p.website ≡ input.website)
    × (p.avatar_url ≡ none)
    × (p.cover_photo_url ≡ none)
    × (p.date_of_birth ≡ none)
HasValues i input (some row) (ok p) =
    (p.user_id ≡ row.user_id)
    × (p.bio ≡ given input.bio row.bio)
    × (p.location ≡ given_or input.location row.location)
    × (p.website ≡ given_or input.website row.website)
    × (p.avatar_url ≡ row.avatar_url)
    × (p.cover_photo_url ≡ row.cover_photo_url)
    × (p.date_of_birth ≡ row.date_of_birth)

-- Whether an update is refused: a location of more than 200 or a website of more than 500
-- characters, and for a new profile a user that is not there or an identifier that is
abbrev pub is_update_refused :
    EntityId → EntityId → UpdateProfileInput → ProfileTables → Option Profile → Bool
is_update_refused new_id i input d none =
    is_longer 200 input.location
    || is_longer 500 input.website
    || not (exists (λ u. u.id == i) d.users)
    || exists (λ q. q.id == new_id || q.user_id == i) d.profiles
is_update_refused new_id i input d (some row) =
    is_longer 200 (given_or input.location row.location)
    || is_longer 500 (given_or input.website row.website)
    || is_longer 500 row.avatar_url
    || is_longer 500 row.cover_photo_url

module _ (now new_id : ℕ) (i : EntityId) (d : ProfileTables) (input : UpdateProfileInput) where
  abbrev created : Profile
  created = create_profile new_id i (or_empty input.bio) none input.location input.website
