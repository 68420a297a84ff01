-- ===== src/Friend/Endpoints.antt =====
-- What is left in the database of the answers to a request, and what a second request meets.
use facebook_clone.Prelude.{ℕ, false, ◌≡◌, arith, some}
use facebook_clone.Shared.Errors.{err, integrity_error}
use facebook_clone.Shared.EntityId.{Libraries}
use facebook_clone.Shared.Table.{find}
use facebook_clone.Shared.Table.Existence.{is_some-find}
use facebook_clone.UnitOfWork.{endpoint, async_with, committing}
use facebook_clone.Friend.Entities.{FriendTables, is_pending, is_blocked, FriendRequest}
use facebook_clone.Friend.Repository.{is_from_to}
use facebook_clone.Friend.Requests.{
  SendRequestInput, AcceptRequestInput, send, send_request_use_case, accept_request_use_case,
  reject_request_use_case,
}
use facebook_clone.Friend.Unfriending.{UnfriendInput, unfriend_use_case}
use facebook_clone.Friend.Invariant.{friends, IsSound}
use facebook_clone.Friend.Outcomes.{send_outcome}

-- On sound tables, while two users are no friends and the sender's last request is neither pending
-- nor blocked, a new request of that sender fails on the unique constraint and changes nothing.
pub send-again :
    (d : FriendTables) (now new_id a b : ℕ) (r : FriendRequest)
    → IsSound d
    → friends d a b ≡ false
    → find (is_from_to a b) d.requests ≡ some r
    → is_pending r.status ≡ false
    → is_blocked r.status ≡ false
    → send now new_id a b d ≡ (err integrity_error, d)
send-again d now new_id a b r s n f p q =
    rw (send_outcome d s now new_id a b) (ground (arith, is_some-find (is_from_to a b) d.requests))

-- Each of these use cases enters the unit of work of its endpoint again, so that what it commits is
-- a session without writes.
module _ (libs : Libraries) (d : FriendTables) where
  -- Whatever the endpoint of a friend request answers, the database is as it was.
  pub endpoint-send :
      (now new_id : ℕ) (input : SendRequestInput)
      → (endpoint (send_request_use_case libs now new_id input) d).1 ≡ d
  unfolding send_request_use_case endpoint async_with committing
  endpoint-send now new_id input = ground arith

  -- Whatever the endpoint of an acceptance answers, the database is as it was.
  pub endpoint-accept :
      (now i j : ℕ) (input : AcceptRequestInput)
      → (endpoint (accept_request_use_case libs now i j input) d).1 ≡ d
  unfolding accept_request_use_case endpoint async_with committing
  endpoint-accept now i j input = ground arith

  -- Whatever the endpoint of a rejection answers, the database is as it was.
  pub endpoint-reject :
      (input : AcceptRequestInput) → (endpoint (reject_request_use_case libs input) d).1 ≡ d
  unfolding reject_request_use_case endpoint async_with committing
  endpoint-reject input = ground arith

  -- Whatever the endpoint of an unfriending answers, the database is as it was.
  pub endpoint-unfriend :
      (input : UnfriendInput) → (endpoint (unfriend_use_case libs input) d).1 ≡ d
  unfolding unfriend_use_case endpoint async_with committing
  endpoint-unfriend input = ground arith
