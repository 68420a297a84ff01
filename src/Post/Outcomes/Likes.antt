-- ===== src/Post/Outcomes/Likes.antt =====
-- `LikePostUseCase` and `UnlikePostUseCase` on every branch.
use facebook_clone.Prelude.{
  not, ◌==◌, ◌&&◌, ◌+◌, ◌≤◌, refl, ◌≡◌, true, false, none, some, List, arith, inl, inr,
  Option-cases, if◌then◌else◌, is_some,
}
use facebook_clone.Shared.Errors.{
  is_err, ok, err, type_error, integrity_error, post_not_found, already_liked, not_liked,
}
use facebook_clone.Shared.EntityId.{Libraries, EntityId}
use facebook_clone.Shared.Table.{count, exists, update_where, find, delete_where, insert}
use facebook_clone.Shared.Table.Counting.{find-some, exists_of_find, not_exists-delete_where}
use facebook_clone.Shared.Table.Existence.{is_some-find, update_where_congr}
use facebook_clone.Post.Entities.{
  Datetime, Post, Like, create_like, increment_like_count, decrement_like_count,
}
use facebook_clone.Post.Tables.{PostTables, has_user, has_post}
use facebook_clone.Post.PostRepository
use facebook_clone.Post.PostRepository.{assign}
use facebook_clone.Post.LikeRepository
use facebook_clone.Post.Likes.{like, take_back_like, unlike}
use facebook_clone.Post.Invariant.{IsConsistent}
use facebook_clone.Post.Invariant.Queries.{find_post_lem, find_like_lem, count_posts-le}
use facebook_clone.Post.Invariant.Rows.{with_post, update_lem}

-- The row of a new like
abbrev pub new_like : Datetime → EntityId → EntityId → EntityId → Like
new_like now new_id post_id user_id = record {
  id = new_id;
  post_id = post_id;
  user_id = user_id;
  created_at = some now;
}

-- A save of a like with a new key, on a post that is there and that the user does not like
pub save_like_lem :
    (libs : Libraries) (now : Datetime) (new_id post_id user_id : EntityId) (d : PostTables)
    → find (LikeRepository.has_id new_id) d.likes ≡ none
    → find (LikeRepository.is_by post_id user_id) d.likes ≡ none
    → has_post d post_id ≡ true
    → LikeRepository.save libs now (create_like new_id post_id user_id) d ≡ (
        if libs.init_takes_id
        then if has_user d user_id
          then (
            ok (new_like now new_id post_id user_id),
            record d { likes = insert (new_like now new_id post_id user_id) d.likes },
          )
          else (err integrity_error, d)
        else (err type_error, d))
unfolding LikeRepository.save create_like
save_like_lem libs now new_id post_id user_id d fresh unliked known = ground (
  arith,
  not_exists-delete_where (LikeRepository.is_by post_id user_id) (LikeRepository.has_id new_id)
      d.likes,
)

-- What a like does, in terms of the repositories' writes
pub like_written :
    (libs : Libraries) (now : Datetime) (new_id post_id user_id : EntityId) (d : PostTables)
    → IsConsistent d
    → find (LikeRepository.has_id new_id) d.likes ≡ none
    → like libs now new_id post_id user_id d ≡ elim (find (PostRepository.has_id post_id) d.posts) [
      | none ↦ (err post_not_found, d)
      | some post ↦
          if is_some (find (LikeRepository.is_by post_id user_id) d.likes)
          then (err already_liked, d)
          else if libs.init_takes_id
          then if has_user d user_id
            then (
              ok (new_like now new_id post_id user_id),
              record d {
                likes = insert (new_like now new_id post_id user_id) d.likes;
                posts = with_post post_id (increment_like_count post) d.posts;
              },
            )
            else (err integrity_error, d)
          else (err type_error, d)
    ]
unfolding like
like_written libs now new_id post_id user_id d h fresh =
    elim (Option-cases (find (PostRepository.has_id post_id) d.posts)) [
      | inl missing ↦ ground (arith, find_post_lem h post_id user_id)
      | inr (post, found) ↦ ground (
        arith,
        find_post_lem h post_id user_id,
        find_like_lem h post_id user_id,
        save_like_lem libs now new_id post_id user_id d fresh,
        exists_of_find (PostRepository.has_id post_id) d.posts found,
        update_lem (record d { likes = insert (new_like now new_id post_id user_id) d.likes })
            post_id (increment_like_count post) post (count_posts-le h post_id user_id) found,
        find-some (PostRepository.has_id post_id) d.posts found,
      )
    ]

-- A write of a post with its counter raised
counted_lem :
    (post_id : EntityId) (post : Post) (posts : List Post)
    → find (PostRepository.has_id post_id) posts ≡ some post
    → count (PostRepository.has_id post_id) posts ≤ 1
    → with_post post_id (increment_like_count post) posts
      ≡ update_where (λ p. p.id == post_id) (λ p. record p { like_count = p.like_count + 1 }) posts
counted_lem post_id post posts found u =
    update_where_congr (PostRepository.has_id post_id) (assign (increment_like_count post))
      (λ p. record p { like_count = p.like_count + 1 }) posts found u refl

-- On consistent tables a like with a new identifier is refused if the post is missing, if the user
-- likes it already, if the row cannot be constructed, or if there is no such user; otherwise the
-- like is stored, and the post's number of likes is one more, with all else of the posts as it was.
pub like_outcome :
    (libs : Libraries) (now : Datetime) (new_id post_id user_id : EntityId) (d : PostTables)
    → IsConsistent d
    → find (LikeRepository.has_id new_id) d.likes ≡ none
    → like libs now new_id post_id user_id d ≡ (
        if not (exists (λ p. p.id == post_id) d.posts)
        then (err post_not_found, d)
        else if exists (λ l. l.post_id == post_id && l.user_id == user_id) d.likes
        then (err already_liked, d)
        else if not libs.init_takes_id
        then (err type_error, d)
        else if not (exists (λ u. u == user_id) d.users)
        then (err integrity_error, d)
        else (
          ok (new_like now new_id post_id user_id),
          record d {
            likes = insert (new_like now new_id post_id user_id) d.likes;
            posts =
                update_where
                  (λ p. p.id == post_id)
                  (λ p. record p { like_count = p.like_count + 1 })
                  d.posts;
          },
        ))
like_outcome libs now new_id post_id user_id d h fresh =
    elim (Option-cases (find (PostRepository.has_id post_id) d.posts)) [
      | inl missing ↦ ground (
        arith,
        like_written libs now new_id post_id user_id d h fresh,
        is_some-find (PostRepository.has_id post_id) d.posts,
      )
      | inr (post, found) ↦ ground (
        arith,
        like_written libs now new_id post_id user_id d h fresh,
        is_some-find (PostRepository.has_id post_id) d.posts,
        is_some-find (LikeRepository.is_by post_id user_id) d.likes,
        counted_lem post_id post d.posts found (count_posts-le h post_id user_id),
      )
    ]

-- The posts after a count is taken back; a like or a reaction may outlive its post.
abbrev pub taken_back : EntityId → List Post → List Post
taken_back post_id posts = elim (find (PostRepository.has_id post_id) posts) [
  | none ↦ posts
  | some post ↦ with_post post_id (decrement_like_count post) posts
]

pub take_back_lem :
    (post_id : EntityId) (d : PostTables)
    → IsConsistent d
    → take_back_like (find (PostRepository.has_id post_id) d.posts) d
      ≡ (ok tt, record d { posts = taken_back post_id d.posts })
take_back_lem post_id d h = elim (Option-cases (find (PostRepository.has_id post_id) d.posts)) [
  | inl missing ↦ ground arith
  | inr (post, found) ↦ ground (
    arith,
    update_lem d post_id (decrement_like_count post) post (count_posts-le h post_id 0) found,
    find-some (PostRepository.has_id post_id) d.posts found,
  )
]

-- On consistent tables, to take a like back is refused if there is none; otherwise the like is
-- deleted and the post's counter is lowered.
pub unlike_outcome :
    (post_id user_id : EntityId) (d : PostTables)
    → IsConsistent d
    → unlike post_id user_id d ≡ elim (find (LikeRepository.is_by post_id user_id) d.likes) [
      | none ↦ (err not_liked, d)
      | some l ↦ (
        ok tt,
        record d {
          likes = delete_where (LikeRepository.has_id l.id) d.likes;
          posts = taken_back post_id d.posts;
        },
      )
    ]
unfolding unlike LikeRepository.delete
unlike_outcome post_id user_id d h =
    elim (Option-cases (find (LikeRepository.is_by post_id user_id) d.likes)) [
      | inl missing ↦ ground (arith, find_like_lem h post_id user_id)
      | inr (l, found) ↦ ground (
        arith,
        find_like_lem h post_id user_id,
        find_post_lem h post_id user_id,
        take_back_lem post_id d h,
      )
    ]

-- Where the constructor of a mapped class takes no `id`, every like fails and writes nothing.
pub like-refused :
    (libs : Libraries) (now : Datetime) (new_id post_id user_id : EntityId) (d : PostTables)
    → libs.init_takes_id ≡ false
    → (is_err (like libs now new_id post_id user_id d).0 ≡ true)
      × ((like libs now new_id post_id user_id d).1 ≡ d)
unfolding like LikeRepository.save PostRepository.find_by_id LikeRepository.find_by_post_and_user
like-refused libs now new_id post_id user_id d refused = ground arith
