-- ===== src/Shared/Errors.antt =====
-- The exceptions of the domain layer (src/fb/domain/*/exceptions.py, src/fb/domain/post/media.py),
-- with those of the libraries that the code meets. Messages are left out.
use facebook_clone.Prelude.{◌≡◌, refl, ◌⊎◌, inl, inr, Bool, true, false}

pub data Error : Type 0 where
  -- ValueError, TypeError, IndexError, RuntimeError, and SQLAlchemy's IntegrityError, DataError and
  -- MultipleResultsFound
  value_error type_error index_error runtime_error integrity_error data_error
        multiple_results_found :
      Error
  -- src/fb/domain/friend/exceptions.py
  friend_request_already_exists friend_request_not_found cannot_friend_self already_friends
        not_friends user_blocked :
      Error
  -- src/fb/domain/follow/exceptions.py
  cannot_follow_self already_following not_following : Error
  -- src/fb/domain/post/exceptions.py
  post_not_found post_permission post_content_too_long : Error
  -- src/fb/domain/post/interaction_exceptions.py
  comment_not_found already_liked not_liked comment_permission already_reacted reaction_not_found
        share_not_found cannot_share_own_post share_permission already_shared :
      Error
  -- src/fb/domain/chat/exceptions.py
  empty_message message_too_long cannot_message_self message_not_found conversation_not_found :
      Error
  -- src/fb/domain/notification/exceptions.py
  notification_not_found : Error
  -- an HTTPException with status 401
  http_unauthorized : Error
  -- src/fb/domain/auth/exceptions.py
  auth_error invalid_credentials email_already_exists user_name_already_exists user_not_found
        user_inactive invalid_token token_blacklisted :
      Error
  -- src/fb/domain/profile/exceptions.py
  invalid_file_type profile_not_found profile_already_exists : Error
  -- src/fb/domain/post/media.py, and src/fb/domain/media/exceptions.py
  invalid_attachment_type attachment_too_large : Error
  invalid_media_type media_too_large media_not_found media_ownership : Error

-- A call that may raise.
pub data Result {ℓ} (A : Type ℓ) : Type ℓ where
  ok : A → Result A
  err : Error → Result A

abbrev pub is_err {ℓ} : {A : Type ℓ} → Result A → Bool
is_err (ok _) = false
is_err (err _) = true

pub Result-cases {ℓ} :
    {A : Type ℓ} (r : Result A) → ((e : Error) × (r ≡ err e)) ⊎ ((a : A) × (r ≡ ok a))
Result-cases (ok a) = inr (a, refl)
Result-cases (err e) = inl (e, refl)
