-- ===== src/Rest/Errors.antt =====
-- src/fb/presentation/rest/error_handlers.py: the status and the code of an exception.
use facebook_clone.Prelude.{
  if◌then◌else◌, leb, ltb, ◌&&◌, ℕ, Bool, true, false, Option, none, some, ◌==◌,
}
use facebook_clone.Shared.Errors
use facebook_clone.Shared.Errors.{Error, Result, ok, err}
use facebook_clone.Shared.EntityId.{Text}
use facebook_clone.Shared.Text.{codes}
use facebook_clone.Rest.Responses.{ApiResponse, success_response, error_response}

-- The entry of `_EXCEPTION_MAP`, or of the nearest class above; none is an exception that is not of
-- the domain.
unfoldable pub exception_map : Error → Option (ℕ × Text)
exception_map Errors.invalid_credentials = some (401, codes "INVALID_CREDENTIALS")
exception_map Errors.invalid_token = some (401, codes "INVALID_TOKEN")
exception_map Errors.token_blacklisted = some (401, codes "TOKEN_BLACKLISTED")
exception_map Errors.auth_error = some (401, codes "AUTH_ERROR")
exception_map Errors.user_inactive = some (403, codes "USER_INACTIVE")
exception_map Errors.user_blocked = some (403, codes "USER_BLOCKED")
exception_map Errors.post_permission = some (403, codes "POST_PERMISSION_DENIED")
exception_map Errors.comment_permission = some (403, codes "COMMENT_PERMISSION_DENIED")
exception_map Errors.share_permission = some (403, codes "SHARE_PERMISSION_DENIED")
exception_map Errors.user_not_found = some (404, codes "USER_NOT_FOUND")
exception_map Errors.post_not_found = some (404, codes "POST_NOT_FOUND")
exception_map Errors.comment_not_found = some (404, codes "COMMENT_NOT_FOUND")
exception_map Errors.reaction_not_found = some (404, codes "REACTION_NOT_FOUND")
exception_map Errors.share_not_found = some (404, codes "SHARE_NOT_FOUND")
exception_map Errors.friend_request_not_found = some (404, codes "FRIEND_REQUEST_NOT_FOUND")
exception_map Errors.profile_not_found = some (404, codes "PROFILE_NOT_FOUND")
exception_map Errors.cannot_friend_self = some (400, codes "CANNOT_FRIEND_SELF")
exception_map Errors.cannot_share_own_post = some (400, codes "CANNOT_SHARE_OWN_POST")
exception_map Errors.cannot_follow_self = some (400, codes "CANNOT_FOLLOW_SELF")
exception_map Errors.email_already_exists = some (409, codes "EMAIL_ALREADY_EXISTS")
exception_map Errors.user_name_already_exists = some (409, codes "USERNAME_ALREADY_EXISTS")
exception_map Errors.already_following = some (409, codes "ALREADY_FOLLOWING")
exception_map Errors.not_following = some (409, codes "NOT_FOLLOWING")
exception_map Errors.already_liked = some (409, codes "ALREADY_LIKED")
exception_map Errors.already_reacted = some (409, codes "ALREADY_REACTED")
exception_map Errors.already_shared = some (409, codes "ALREADY_SHARED")
exception_map Errors.not_liked = some (409, codes "NOT_LIKED")
exception_map Errors.friend_request_already_exists = some (409, codes "FRIEND_REQUEST_EXISTS")
exception_map Errors.already_friends = some (409, codes "ALREADY_FRIENDS")
exception_map Errors.not_friends = some (409, codes "NOT_FRIENDS")
exception_map Errors.post_content_too_long = some (422, codes "POST_CONTENT_TOO_LONG")
exception_map Errors.invalid_file_type = some (422, codes "INVALID_FILE_TYPE")
exception_map Errors.invalid_attachment_type = some (415, codes "INVALID_MEDIA_TYPE")
exception_map Errors.attachment_too_large = some (413, codes "MEDIA_TOO_LARGE")
exception_map Errors.invalid_media_type = some (415, codes "INVALID_MEDIA_TYPE")
exception_map Errors.media_too_large = some (413, codes "MEDIA_TOO_LARGE")
exception_map Errors.media_not_found = some (404, codes "MEDIA_NOT_FOUND")
exception_map Errors.media_ownership = some (403, codes "MEDIA_OWNERSHIP_DENIED")
exception_map Errors.notification_not_found = some (404, codes "NOTIFICATION_NOT_FOUND")
exception_map Errors.empty_message = some (400, codes "EMPTY_MESSAGE")
exception_map Errors.message_too_long = some (422, codes "MESSAGE_TOO_LONG")
exception_map Errors.message_not_found = some (404, codes "MESSAGE_NOT_FOUND")
exception_map Errors.conversation_not_found = some (404, codes "CONVERSATION_NOT_FOUND")
exception_map Errors.cannot_message_self = some (400, codes "CANNOT_MESSAGE_SELF")
exception_map _ = none

module _ {A : Type 0} where
  -- `_handle_domain_exception`, and `_handle_generic_exception` for what is not in the map
  abbrev pub from_entry : Option (ℕ × Text) → Text → ApiResponse A
  from_entry none trace_id = error_response (codes "INTERNAL_ERROR") 500 trace_id
  from_entry (some entry) trace_id = error_response entry.1 entry.0 trace_id

  -- The handler that an exception reaches
  unfoldable pub handle : Error → Text → ApiResponse A
  handle Errors.http_unauthorized trace_id = error_response (codes "HTTP_ERROR") 401 trace_id
  handle e trace_id = from_entry (exception_map e) trace_id

  -- An endpoint's answer: the response of the status that it names, or the handler's
  unfoldable pub answer : ℕ → Text → Result A → ApiResponse A
  unfolding handle
  answer status trace_id (ok a) = success_response a none status
  answer status trace_id (err e) = handle e trace_id

-- What reaches a handler: an exception of the code or of a library, the web framework's
-- `HTTPException` with a status, or its `RequestValidationError`
pub data Raised : Type 0 where
  thrown : Error → Raised
  http_exception : ℕ → Raised
  validation_error : Raised

module _ {A : Type 0} where
  -- The handler that `register_error_handlers` registers for it
  unfoldable pub handle_raised : Raised → Text → ApiResponse A
  unfolding handle
  handle_raised (thrown e) trace_id = handle e trace_id
  handle_raised (http_exception status) trace_id =
      error_response (codes "HTTP_ERROR") status trace_id
  handle_raised validation_error trace_id = error_response (codes "VALIDATION_ERROR") 422 trace_id

-- An exception of Python or of a library, or ProfileAlreadyExistsError, which no handler but the
-- last is registered for
unfoldable pub is_unhandled : Error → Bool
is_unhandled Errors.value_error = true
is_unhandled Errors.type_error = true
is_unhandled Errors.index_error = true
is_unhandled Errors.runtime_error = true
is_unhandled Errors.integrity_error = true
is_unhandled Errors.data_error = true
is_unhandled Errors.multiple_results_found = true
is_unhandled Errors.profile_already_exists = true
is_unhandled _ = false

-- The status of the answer to an exception
unfoldable pub status_of : Raised → ℕ
unfolding handle_raised exception_map error_response
status_of r = (handle_raised {A = Unit} r (codes "")).status_code

-- Whether the status is one of a refusal, or 500 for an exception that is not handled
abbrev is_fitting : Error → Bool
is_fitting e =
    let status = status_of (thrown e) in
    if is_unhandled e then status == 500 else leb 400 status && ltb status 500
