-- ===== src/Friend/Soundness.antt =====
-- The use cases of friends keep the tables sound, and what they do to the friendships.
use facebook_clone.Prelude.{
  ℕ, true, false, not, ◌≡◌, refl, arith, ◌&&◌, ◌||◌, ◌==◌, some, Bool-cases, inl, inr, Option-cases,
  ap, ◌∙◌,
}
use facebook_clone.Shared.Errors.{ok}
use facebook_clone.Shared.EntityId.{EntityId}
use facebook_clone.Shared.Table.{find, update_where}
use facebook_clone.Shared.Table.Existence.{exists-updated}
use facebook_clone.Friend.Entities.{
  FriendRequest, FriendTables, is_pending, is_blocked, accepted, rejected, accept,
}
use facebook_clone.Friend.Repository.{has_id, is_from_to}
use facebook_clone.Friend.Requests.{send, accept_request, reject_request}
use facebook_clone.Friend.Unfriending.{unfriend}
use facebook_clone.Friend.Invariant.{friends, IsSound, pending_request, is_open, route_le_one}
use facebook_clone.Friend.Outcomes.{
  existing, has_status, is_permitted, send_outcome, reject_outcome, unfriend_outcome, id_of_found,
}
use facebook_clone.Friend.Rows.{
  pending_of_answered, free_back, insert-IsSound, answer-IsSound, friends-with_pair,
  with_pair-IsSound, friends-without_pair, without_pair-IsSound,
}
use facebook_clone.Friend.Acceptance.{
  befriended, AreNew, accept_outcome, pending_of_found, row_of_found,
}

module _ (d : FriendTables) (s : IsSound d) where
  -- A request to another user keeps sound tables sound, on every branch.
  pub send-IsSound : (now new_id a b : ℕ) → (a == b) ≡ false → IsSound (send now new_id a b d).1
  send-IsSound now new_id a b n =
      rw (send_outcome d s now new_id a b) (elim (Bool-cases (friends d a b)) [
        | inl f ↦ rw f s
        | inr f ↦ rw f (elim (Bool-cases (has_status is_blocked (existing d a b))) [
          | inl g ↦ rw g s
          | inr g ↦ rw g (elim (Bool-cases (has_status is_pending (existing d a b))) [
            | inl h ↦ rw h s
            | inr h ↦ rw h (elim (Bool-cases (is_permitted d new_id a b)) [
              | inl p ↦ rw p (
                  insert-IsSound d s now new_id a b n f
                    (free_back d s now new_id a b h (ground arith)) p)
              | inr p ↦ rw p s
            ])
          ])
        ])
      ])

  module _ (request_id user_id : ℕ) where
    -- A rejection keeps sound tables sound, on every branch.
    pub reject-IsSound : IsSound (reject_request request_id user_id d).1
    reject-IsSound =
        rw (reject_outcome d s request_id user_id)
          (elim (Option-cases (find (has_id request_id) d.requests)) [
            | inl f ↦ rw f s
            | inr (m, f) ↦
                rw f (elim (Bool-cases (is_pending m.status && m.receiver_id == user_id)) [
                  | inl p ↦ rw p (answer-IsSound d s request_id rejected refl)
                  | inr p ↦ rw p s
                ])
          ])

    -- After the acceptance of a request none is pending between the two.
    accepted_lem :
        {m : FriendRequest}
        → find (has_id request_id) d.requests ≡ some m
        → (pending_request
              (record d { requests = update_where (has_id m.id) accept d.requests })
              m.sender_id
              m.receiver_id
            ≡ false)
    accepted_lem {m} f =
        exists-updated (has_id m.id) (is_open m.sender_id m.receiver_id)
          (is_from_to m.sender_id m.receiver_id) accept d.requests
          (ap (λ k. find (has_id k) d.requests) (id_of_found d request_id f) ∙ f) (ground arith)
          (route_le_one d s m.sender_id m.receiver_id) (λ x g. ground arith) (λ x g. ground arith)
          (λ x g. ground arith)

    befriended-IsSound :
        (now i j : ℕ) {m : FriendRequest}
        → find (has_id request_id) d.requests ≡ some m
        → is_pending m.status ≡ true
        → IsSound (befriended now i j m d)
    befriended-IsSound now i j {m} f p =
        let marked : FriendTables = record d {
          requests = update_where (has_id m.id) accept d.requests;
        } in
        let t : IsSound marked = answer-IsSound d s m.id accepted refl in
        let way = pending_of_found d s request_id f p in
        with_pair-IsSound marked t now i j m.sender_id m.receiver_id
          (row_of_found d s request_id f).2 (s.apart m.sender_id m.receiver_id way) (accepted_lem f)
          (elim (Bool-cases (pending_request marked m.receiver_id m.sender_id)) [
            | inl e ↦ ground (
              arith,
              pending_of_answered d s m.id accepted m.receiver_id m.sender_id refl e,
              s.one_way m.sender_id m.receiver_id way,
            )
            | inr e ↦ e
          ])

    -- An acceptance keeps sound tables sound, on every branch, if the keys of the two rows of the
    -- friendship are new.
    pub accept-IsSound :
        (now i j : ℕ) → AreNew d i j → IsSound (accept_request now i j request_id user_id d).1
    accept-IsSound now i j new =
        rw (accept_outcome d s now i j request_id user_id new)
          (elim (Option-cases (find (has_id request_id) d.requests)) [
            | inl f ↦ rw f s
            | inr (m, f) ↦
                rw f (elim (Bool-cases (is_pending m.status && m.receiver_id == user_id)) [
                  | inl p ↦ rw p (befriended-IsSound now i j f (ground arith))
                  | inr p ↦ rw p s
                ])
          ])

  -- The end of a friendship keeps sound tables sound, on every branch.
  pub unfriend-IsSound : (a b : ℕ) → IsSound (unfriend a b d).1
  unfriend-IsSound a b = rw (unfriend_outcome a b d) (elim (Bool-cases (friends d a b)) [
    | inl f ↦ rw f (without_pair-IsSound d s 0 0 0 a b)
    | inr f ↦ rw f s
  ])

module _ (d : FriendTables) (s : IsSound d) where
  -- On sound tables and with new keys, an acceptance that succeeds makes friends of the sender and
  -- the receiver of the request, both ways, and leaves every other pair as it was.
  pub friends-accept :
      (now i j request_id user_id : ℕ) (r : FriendRequest) (x y : EntityId)
      → AreNew d i j
      → (accept_request now i j request_id user_id d).0 ≡ ok r
      → friends (accept_request now i j request_id user_id d).1 x y ≡ (
          friends d x y
          || (r.sender_id == x && r.receiver_id == y)
          || (r.receiver_id == x && r.sender_id == y))
  friends-accept now i j request_id user_id r x y new =
      rw (accept_outcome d s now i j request_id user_id new)
        (elim (Option-cases (find (has_id request_id) d.requests)) [
          | inl f ↦ rw f (λ e. ground arith)
          | inr (m, f) ↦ rw f (elim (Bool-cases (is_pending m.status && m.receiver_id == user_id)) [
            | inl p ↦
                rw p
                  (λ e. ground (arith, friends-with_pair d s now i j m.sender_id m.receiver_id x y))
            | inr p ↦ rw p (λ e. ground arith)
          ])
        ])

  -- On sound tables, the end of a friendship that succeeds parts the two users, both ways, and no
  -- others.
  pub friends-unfriend :
      (a b x y : EntityId)
      → (unfriend a b d).0 ≡ ok tt
      → friends (unfriend a b d).1 x y
        ≡ (friends d x y && not ((a == x && b == y) || (b == x && a == y)))
  friends-unfriend a b x y = rw (unfriend_outcome a b d) (elim (Bool-cases (friends d a b)) [
    | inl f ↦ rw f (λ e. friends-without_pair d s 0 0 0 a b x y)
    | inr f ↦ rw f (λ e. ground arith)
  ])
