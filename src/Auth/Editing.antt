-- ===== src/Auth/Editing.antt =====
-- What edits of a user do, and what registrations and edits leave in the database.
use mathlib.Core.Path.{subst}
use facebook_clone.Prelude.{
  sym, ℕ, ◌≤◌, ◌≡◌, refl, arith, Bool, true, false, ◌&&◌, ◌||◌, not, some, none, [], ◌∷◌, ◌∙◌,
  if◌then◌else◌, Option-cases, inl, inr, eq_of_==,
}
use facebook_clone.Shared.Errors.{ok, err, data_error, user_not_found}
use facebook_clone.Shared.EntityId.{EntityId, Text, Libraries}
use facebook_clone.Shared.TextEquality.{text_eq_refl, text_eq_same, text_eq_symm}
use facebook_clone.Shared.Table.{exists, find, count, update_where}
use facebook_clone.Shared.Table.Counting.{scalar_one_or_none-select, find-some, count_of_found}
use facebook_clone.Shared.Table.Existence.{count-none_of_exists}
use facebook_clone.Shared.Table.Keys.{count-le_of_Unique}
use facebook_clone.UnitOfWork.{endpoint}
use facebook_clone.UnitOfWork.Transactions.{answering, endpoint-async_with_then}
use facebook_clone.Auth.Values.{hashed_password}
use facebook_clone.Auth.Entities.{User, update_profile_fields, change_password}
use facebook_clone.Auth.Repository.{
  Users, has_id, has_email, has_user_name, clashes, clashes_with_other, is_too_long, assign,
  find_by_id, update,
}
use facebook_clone.Auth.Tokens.{Jwt, Hasher, TokenSettings}
use facebook_clone.Auth.Accounts.{
  RegisterInput, EditUserInput, sign_up, register_use_case, token_pair, edit,
}
use facebook_clone.Auth.Outcomes.{IsSound}

exists_either :
    (p q r : User → Bool) (users : Users)
    → exists (λ u. p u && (q u || r u)) users
      ≡ (exists (λ u. p u && q u) users || exists (λ u. p u && r u) users)
unfolding exists
exists_either p q r [] = refl
exists_either p q r (x ∷ users) = ground (arith, exists_either p q r users)

module _ (users : Users) (s : IsSound users) where
  id_le_one : (i : EntityId) → count (has_id i) users ≤ 1
  id_le_one i = count-le_of_Unique clashes (has_id i) users (λ x y p q. ground arith) s

  email_le_one : (a : Text) → count (has_email a) users ≤ 1
  email_le_one a =
      count-le_of_Unique clashes (has_email a) users
        (λ x y p q. ground (
          arith,
          text_eq_same x.email a y.email,
          text_eq_symm a y.email,
          text_eq_symm x.email y.email,
        ))
        s

  user_name_le_one : (a : Text) → count (has_user_name a) users ≤ 1
  user_name_le_one a =
      count-le_of_Unique clashes (has_user_name a) users
        (λ x y p q. ground (
          arith,
          text_eq_same x.user_name a y.user_name,
          text_eq_symm a y.user_name,
          text_eq_symm x.user_name y.user_name,
        ))
        s

  lone :
      (i : EntityId) (q : User → Bool) (u : User)
      → find (has_id i) users ≡ some u
      → q u ≡ true
      → count q users ≤ 1
      → exists (λ row. not (has_id i row) && q row) users ≡ false
  lone i q u e here one =
      let me = find-some (has_id i) users e in
      count-none_of_exists (λ row. not (has_id i row) && q row) users
        (count_of_found (has_id i) (λ row. not (has_id i row)) q users e here one ∙ rw me.0 refl)

  -- No other user has the address or the name of one who is there.
  no_clash :
      (u v : User)
      → find (has_id v.id) users ≡ some u
      → v.email ≡ u.email
      → v.user_name ≡ u.user_name
      → exists (clashes_with_other v) users ≡ false
  no_clash u v e a n = ground (
    arith,
    exists_either (λ row. not (has_id v.id row)) (has_email v.email) (has_user_name v.user_name)
        users,
    lone v.id (has_email v.email) u e (rw a (text_eq_refl u.email)) (email_le_one v.email),
    lone v.id (has_user_name v.user_name) u e (rw n (text_eq_refl u.user_name))
        (user_name_le_one v.user_name),
  )

  update_found :
      (now : ℕ) (u v : User)
      → find (has_id v.id) users ≡ some u
      → v.email ≡ u.email
      → v.user_name ≡ u.user_name
      → update now v users ≡ (
          if is_too_long v
          then (err data_error, users)
          else (ok (assign now v u), update_where (has_id v.id) (assign now v) users))
  unfolding update
  update_found now u v e a n =
      ground
        (arith, scalar_one_or_none-select (has_id v.id) users (id_le_one v.id), no_clash u v e a n)

-- The user with the changes of an input, among them the password's hash
unfoldable pub changed : Hasher → ℕ → EditUserInput → User → User
unfolding update_profile_fields
changed hasher salt input u =
    let v = update_profile_fields input.first_name input.last_name input.birthday u in
    record v {
      hashed_password = elim input.password [
        | none ↦ v.hashed_password
        | some password ↦ hasher.hash salt password
      ];
    }

module _ (hasher : Hasher) (salt now user_id : ℕ) (input : EditUserInput) (users : Users) where
  -- An edit of a user who is not there is refused, and so is one that makes a text longer than its
  -- column; any other one writes the changes to the row of that user, whose address and name stay.
  pub edit_outcome :
      IsSound users
      → edit hasher salt now user_id input users ≡ (elim (find (has_id user_id) users) [
        | none ↦ (err user_not_found, users)
        | some u ↦ if is_too_long (changed hasher salt input u) then (err data_error, users) else (
          ok (assign now (changed hasher salt input u) u),
          update_where (has_id u.id) (assign now (changed hasher salt input u)) users,
        )
      ])
  unfolding changed edit find_by_id update_profile_fields change_password hashed_password
  edit_outcome s = elim (Option-cases (find (has_id user_id) users)) [
    | inl n ↦
        ground (arith, scalar_one_or_none-select (has_id user_id) users (id_le_one users s user_id))
    | inr (u, e) ↦
        let me : u.id ≡ user_id = eq_of_== u.id user_id (find-some (has_id user_id) users e).0 in
        let e' : find (has_id u.id) users ≡ some u =
          subst (λ i. find (has_id i) users ≡ some u) (sym me) e in
        let v = changed hasher salt input u in
        elim (Option-cases input.password) [
          | inl p ↦ ground (
            arith,
            scalar_one_or_none-select (has_id user_id) users (id_le_one users s user_id),
            update_found users s now u v e' refl refl,
          )
          | inr (w, p) ↦ ground (
            arith,
            hasher.is_empty-hash salt w,
            scalar_one_or_none-select (has_id user_id) users (id_le_one users s user_id),
            update_found users s now u v e' refl refl,
          )
        ]
  ]

-- A registration enters the unit of work of its endpoint once more: it is answered as its calls
-- end, with the tokens of the new user if they succeed, and the table of users stays as it was.
pub endpoint-register :
    (libs : Libraries) (jwt : Jwt) (settings : TokenSettings) (hasher : Hasher)
    (salt now new_id : ℕ) (input : RegisterInput) (users : Users)
    → endpoint (register_use_case libs jwt settings hasher salt now new_id input) users ≡ (
      (answering (token_pair libs jwt settings now) (sign_up hasher salt now new_id input users)).0,
      users,
    )
unfolding register_use_case
endpoint-register libs jwt settings hasher salt now new_id input users =
    endpoint-async_with_then (sign_up hasher salt now new_id input)
      (token_pair libs jwt settings now) users
