-- ===== src/Rest/Responses.antt =====
-- src/fb/presentation/rest/response.py, without the serialization to JSON.
use facebook_clone.Prelude.{ℕ, Bool, true, false, Option, none, some}
use facebook_clone.Shared.EntityId.{Text}

pub record ErrorDetail : Type 0 where
  pub code : Text
  pub trace_id : Text

pub record PaginationMeta : Type 0 where
  pub total : ℕ
  pub limit : ℕ
  pub page : Option ℕ
  pub cursor : Option Text
  pub has_next : Bool

pub record ApiResponse (A : Type 0) : Type 0 where
  pub status_code : ℕ
  pub success : Bool
  pub content : Option A
  pub error : Option ErrorDetail
  pub meta : Option PaginationMeta

module _ {A : Type 0} where
  unfoldable pub success_response : A → Option PaginationMeta → ℕ → ApiResponse A
  success_response a meta status_code = record {
    status_code = status_code;
    success = true;
    content = some a;
    error = none;
    meta = meta;
  }

  unfoldable pub error_response : Text → ℕ → Text → ApiResponse A
  error_response code status_code trace_id = record {
    status_code = status_code;
    success = false;
    content = none;
    error = some (record { code = code; trace_id = trace_id });
    meta = none;
  }

  unfoldable pub paginated_response : A → ℕ → ℕ → Option ℕ → Option Text → Bool → ApiResponse A
  unfolding success_response
  paginated_response a total limit page cursor has_next =
      success_response a
        (some (record {
          total = total;
          limit = limit;
          page = page;
          cursor = cursor;
          has_next = has_next;
        }))
        200
