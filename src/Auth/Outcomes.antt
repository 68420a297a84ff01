-- ===== src/Auth/Outcomes.antt =====
-- What the calls of a registration do, on every branch, and what a login makes of their rows.
use facebook_clone.Prelude.{
  ℕ, ◌≡◌, refl, arith, true, ◌&&◌, ◌||◌, not, ==_symm, some, [], ◌∷◌, if◌then◌else◌, Bool-cases,
  inl, inr,
}
use facebook_clone.Shared.Errors.{
  ok, err, email_already_exists, user_name_already_exists, value_error, data_error, integrity_error,
}
use facebook_clone.Shared.EntityId.{EntityId, Libraries}
use facebook_clone.Shared.TextEquality.{text_eq_refl, text_eq_symm}
use facebook_clone.Shared.Table.{add, exists, insert}
use facebook_clone.Shared.Table.Counting.{count-of_not_exists}
use facebook_clone.Shared.Table.Existence.{scalar_one_or_none-insert}
use facebook_clone.Shared.Table.Keys.{Unique, Unique-insert}
use facebook_clone.Auth.Values.{
  is_valid_email, is_valid_user_name, email, user_name, hashed_password,
}
use facebook_clone.Auth.Entities.{User, create_user, full_name}
use facebook_clone.Auth.Repository.{
  Users, has_id, has_email, has_user_name, clashes, is_too_long, exists_by_email,
  exists_by_user_name, save, find_by_user_name,
}
use facebook_clone.Auth.Tokens.{Jwt, Hasher, TokenSettings}
use facebook_clone.Auth.Accounts.{RegisterInput, sign_up, token_pair}
use facebook_clone.Auth.Sessions.{login}

-- Identifiers, addresses and user names are unique.
abbrev pub IsSound : Users → Type 0
IsSound users = Unique clashes users

exists_clashes :
    (u : User) (users : Users)
    → exists (clashes u) users ≡ (
        exists (has_id u.id) users
        || exists (has_email u.email) users
        || exists (has_user_name u.user_name) users)
unfolding exists
exists_clashes u [] = refl
exists_clashes u (x ∷ users) = ground (arith, exists_clashes u users)

clashes_symm : (x y : User) → clashes x y ≡ clashes y x
clashes_symm x y =
    ground
      (arith, ==_symm x.id y.id, text_eq_symm x.email y.email, text_eq_symm x.user_name y.user_name)

-- The row of a new user
abbrev pub new_user : Hasher → ℕ → ℕ → EntityId → RegisterInput → User
new_user hasher salt now new_id input = record {
  id = new_id;
  user_name = input.user_name;
  email = input.email;
  hashed_password = hasher.hash salt input.password;
  first_name = input.first_name;
  last_name = input.last_name;
  display_name = full_name input.first_name input.last_name;
  is_active = true;
  date_of_birth = input.birthday;
  created_at = some now;
  updated_at = some now;
}

module _ (hasher : Hasher) (salt now new_id : ℕ) (input : RegisterInput) (users : Users) where
  pub sign_up_outcome : sign_up hasher salt now new_id input users ≡ (
      if exists (has_email input.email) users
      then (err email_already_exists, users)
      else if exists (has_user_name input.user_name) users
      then (err user_name_already_exists, users)
      else if not (is_valid_user_name input.user_name && is_valid_email input.email)
      then (err value_error, users)
      else if is_too_long (new_user hasher salt now new_id input)
      then (err data_error, users)
      else if exists (has_id new_id) users
      then (err integrity_error, users)
      else (
        ok (new_user hasher salt now new_id input),
        insert (new_user hasher salt now new_id input) users,
      ))
  unfolding sign_up exists_by_email exists_by_user_name create_user email user_name hashed_password
      save add
  sign_up_outcome = ground (
    arith,
    hasher.is_empty-hash salt input.password,
    exists_clashes (new_user hasher salt now new_id input) users,
  )

  -- A registration keeps identifiers, addresses and user names unique.
  pub sign_up-IsSound : IsSound users → IsSound (sign_up hasher salt now new_id input users).1
  sign_up-IsSound s = rw sign_up_outcome (elim (Bool-cases (exists (has_email input.email) users)) [
    | inl p ↦ rw p s
    | inr p ↦ rw p (elim (Bool-cases (exists (has_user_name input.user_name) users)) [
      | inl q ↦ rw q s
      | inr q ↦
          rw q
            (elim (Bool-cases (is_valid_user_name input.user_name && is_valid_email input.email)) [
              | inl v ↦
                  rw v (elim (Bool-cases (is_too_long (new_user hasher salt now new_id input))) [
                    | inl l ↦ rw l s
                    | inr l ↦ rw l (elim (Bool-cases (exists (has_id new_id) users)) [
                      | inl i ↦ rw i s
                      | inr i ↦ rw i (
                          Unique-insert clashes (new_user hasher salt now new_id input) users
                            clashes_symm
                            (count-of_not_exists (clashes (new_user hasher salt now new_id input))
                              users
                              (ground (
                                arith,
                                exists_clashes (new_user hasher salt now new_id input) users,
                              )))
                            s)
                    ])
                  ])
              | inr v ↦ rw v s
            ])
    ])
  ])

-- On the rows that a registration leaves in its session, the user logs in with the user name and
-- the password of the registration, and gets the tokens of the new user.
pub login-sign_up :
    (libs : Libraries) (jwt : Jwt) (settings : TokenSettings) (hasher : Hasher)
    (salt now later new_id : ℕ) (input : RegisterInput) (users : Users) (saved : User)
    → (sign_up hasher salt now new_id input users).0 ≡ ok saved
    → login libs jwt settings hasher later
        (record { user_name = input.user_name; password = input.password })
        (sign_up hasher salt now new_id input users).1
      ≡ (
        ok (token_pair libs jwt settings later (new_user hasher salt now new_id input)),
        insert (new_user hasher salt now new_id input) users,
      )
unfolding login find_by_user_name
login-sign_up libs jwt settings hasher salt now later new_id input users saved e =
    let u = new_user hasher salt now new_id input in
    ground (
      arith,
      sign_up_outcome hasher salt now new_id input users,
      scalar_one_or_none-insert (has_user_name input.user_name) u users,
      hasher.verify-hash salt input.password,
      text_eq_refl input.user_name,
    )
