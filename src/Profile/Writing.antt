-- ===== src/Profile/Writing.antt =====
-- What is written of a profile, by the calls that both use cases make.
use mathlib.Core.Path.{subst}
use facebook_clone.Prelude.{
  Bool, ◌||◌, not, Option, sym, [], ℕ, ◌≤◌, ◌≡◌, refl, arith, true, not, Option, none, some, ap,
  ◌∙◌, ◌==◌, Bool-cases, inl, inr,
}
use facebook_clone.Shared.Errors.{Result, ok, err, is_err}
use facebook_clone.Shared.Effects.{Effect, ◌>>=◌}
use facebook_clone.Shared.EntityId.{EntityId, Text}
use facebook_clone.Shared.Table.{find, count, select, add, update_where, scalar_one_or_none}
use facebook_clone.Shared.Table.Counting.{
  scalar_one_or_none-select, find-some, count-update_where, not_exists_of_find,
}
use facebook_clone.Shared.Table.Existence.{
  scalar_one_or_none-insert, find-update_where, select-insert, select-update_where,
}
use facebook_clone.Profile.Entities.{
  Profile, ProfileTables, create_profile, update_bio, update_location, update_website,
  update_avatar,
}
use facebook_clone.Profile.Repository.{
  has_user, find_by_user_id, updated, is_permitted, is_too_long, save, assign, update,
}
use facebook_clone.Profile.Editing.{
  UpdateProfileInput, if_given, changed, save_or_update, change_avatar,
}

-- The answer is the profile that is read from then on, and the other profiles are as they were.
abbrev pub IsWritten : EntityId → ProfileTables → Result Profile × ProfileTables → Type 0
IsWritten i d (err e, after) = after ≡ d
IsWritten i d (ok p, after) =
    (find_by_user_id i after ≡ (ok (some p), after))
    × (select (λ q. not (has_user i q)) after.profiles
        ≡ select (λ q. not (has_user i q)) d.profiles)
    × (after.users ≡ d.users)

-- Whether an update is refused: for a text that is longer than its column, or, where the profile is
-- new, by a constraint
abbrev pub is_refused : ProfileTables → Profile → (Profile → Profile) → Option Profile → Bool
is_refused d created change none = is_too_long created || not (is_permitted d created)
is_refused d created change (some row) = is_too_long (change row)

given_user :
    (text : Option Text) (change : Text → Profile → Profile) (p : Profile)
    → ((text : Text) (q : Profile) → (change text q).user_id ≡ q.user_id)
    → (if_given text change p).user_id ≡ p.user_id
given_user none change p k = refl
given_user (some text) change p k = k text p

module _ (now : ℕ) (i : EntityId) (d : ProfileTables) where
  save_lem :
      (p : Profile)
      → (p.user_id == i) ≡ true
      → find (has_user i) d.profiles ≡ none
      → IsWritten i d (save now p d)
  unfolding save add find_by_user_id
  save_lem p e n =
      let row : Profile = record p { created_at = some now; updated_at = some now } in
      elim (Bool-cases (is_too_long row)) [
        | inl l ↦ rw l refl
        | inr l ↦ rw l (elim (Bool-cases (is_permitted d row)) [
          | inl q ↦ rw q (
            ground (
              arith,
              scalar_one_or_none-insert (has_user i) row d.profiles
                  (not_exists_of_find (has_user i) d.profiles n) e,
            ),
            select-insert (λ q. not (has_user i q)) row d.profiles (ground arith),
            refl,
          )
          | inr q ↦ rw q refl
        ])
      ]

  is_err-save : (p : Profile) → is_err (save now p d).0 ≡ (is_too_long p || not (is_permitted d p))
  unfolding save add
  is_err-save p = ground arith

  read_lem :
      (p row : Profile)
      → find (has_user i) d.profiles ≡ some row
      → count (has_user i) d.profiles ≤ 1
      → scalar_one_or_none
          (select (has_user i) (update_where (has_user i) (assign now p) d.profiles))
        ≡ ok (some (assign now p row))
  read_lem p row f u =
      scalar_one_or_none-select (has_user i) (update_where (has_user i) (assign now p) d.profiles) (
        ground (
          arith,
          count-update_where (has_user i) (has_user i) (assign now p) d.profiles (λ x. refl),
        ))
      ∙ ap ok (find-update_where (has_user i) (assign now p) d.profiles (λ x. refl) f)

  updated_lem :
      (p row : Profile)
      → p.user_id ≡ i
      → find (has_user i) d.profiles ≡ some row
      → count (has_user i) d.profiles ≤ 1
      → IsWritten i d (updated now p (some row) d)
  unfolding find_by_user_id
  updated_lem p row e f u = elim (Bool-cases (is_too_long p)) [
    | inl l ↦ rw l refl
    | inr l ↦ rw l rw e (
      ground (arith, read_lem p row f u),
      select-update_where (λ q. not (has_user i q)) (has_user i) (assign now p) d.profiles
          (λ x h. (ground arith, ground arith)),
      refl,
    )
  ]

  pub update_found :
      (p row : Profile)
      → p.user_id ≡ i
      → find (has_user i) d.profiles ≡ some row
      → count (has_user i) d.profiles ≤ 1
      → update now p d ≡ updated now p (some row) d
  unfolding update
  update_found p row e f u =
      let read : scalar_one_or_none (select (has_user p.user_id) d.profiles) ≡ ok (some row) =
        subst (λ j. scalar_one_or_none (select (has_user j) d.profiles) ≡ ok (some row)) (sym e)
          (scalar_one_or_none-select (has_user i) d.profiles u ∙ ap ok f) in
      ground (arith, read)

  update_lem :
      (p row : Profile)
      → p.user_id ≡ i
      → find (has_user i) d.profiles ≡ some row
      → count (has_user i) d.profiles ≤ 1
      → IsWritten i d (update now p d)
  update_lem p row e f u =
      subst (IsWritten i d) (sym (update_found p row e f u)) (updated_lem p row e f u)

  -- What is done with what was found
  pub written_lem :
      (created : Profile) (change : Profile → Profile) (found : Option Profile)
      → (created.user_id == i) ≡ true
      → ((p : Profile) → (change p).user_id ≡ p.user_id)
      → find (has_user i) d.profiles ≡ found
      → count (has_user i) d.profiles ≤ 1
      → IsWritten i d (save_or_update now created change found d)
  written_lem created change none e k f u = save_lem created e f
  written_lem created change (some row) e k f u =
      let key : row.user_id ≡ i =
        ground (arith, (find-some (has_user i) d.profiles {r = row} f).0) in
      update_lem (change row) row (k row ∙ key) f u

  pub is_err-written :
      (created : Profile) (change : Profile → Profile) (found : Option Profile)
      → ((p : Profile) → (change p).user_id ≡ p.user_id)
      → find (has_user i) d.profiles ≡ found
      → count (has_user i) d.profiles ≤ 1
      → is_err (save_or_update now created change found d).0 ≡ is_refused d created change found
  is_err-written created change none k f u = is_err-save created
  is_err-written created change (some row) k f u =
      let key : row.user_id ≡ i =
        ground (arith, (find-some (has_user i) d.profiles {r = row} f).0) in
      ground (arith, update_found (change row) row (k row ∙ key) f u)

  pub found_lem :
      {B : Type 0} (k : Option Profile → Effect ProfileTables B)
      → count (has_user i) d.profiles ≤ 1
      → (find_by_user_id i >>= k) d ≡ k (find (has_user i) d.profiles) d
  unfolding find_by_user_id
  found_lem k u = ground (arith, scalar_one_or_none-select (has_user i) d.profiles u)

pub changed_user :
    (input : UpdateProfileInput) (p : Profile) → (changed input p).user_id ≡ p.user_id
changed_user input p =
    given_user input.website update_website
      (if_given input.location update_location (if_given input.bio update_bio p)) (λ text q. refl)
    ∙ (given_user input.location update_location (if_given input.bio update_bio p) (λ text q. refl)
        ∙ given_user input.bio update_bio p (λ text q. refl))

module _ (now new_id : ℕ) (i : EntityId) (d : ProfileTables) where
  -- A new avatar is refused exactly for a text that is longer than its column, or by the
  -- constraints if the profile is new; else the profile is read with it from then on.
  pub change_avatar-IsWritten :
      (url : Text)
      → count (has_user i) d.profiles ≤ 1
      → (is_err (change_avatar now new_id i url d).0
          ≡ is_refused d
              (create_profile new_id i [] (some url) none none)
              (update_avatar url)
              (find (has_user i) d.profiles))
        × IsWritten i d (change_avatar now new_id i url d)
  unfolding change_avatar
  change_avatar-IsWritten url u =
      let created = create_profile new_id i [] (some url) none none in
      let step = found_lem now i d (save_or_update now created (update_avatar url)) u in
      (
        ap (λ r. is_err r.0) step
            ∙ is_err-written now i d created (update_avatar url) (find (has_user i) d.profiles)
                (λ p. refl) refl u,
        subst (IsWritten i d) (sym step) (
            written_lem now i d created (update_avatar url) (find (has_user i) d.profiles)
              (ground arith) (λ p. refl) refl u),
      )
