-- ===== src/Post/Outcomes/Comments.antt =====
-- `CreateCommentUseCase` and `DeleteCommentUseCase` on every branch.
use facebook_clone.Prelude.{
  ◌≡◌, none, some, List, arith, ◌==◌, inl, inr, Option-cases, if◌then◌else◌, ltb, length, ◌||◌,
}
use facebook_clone.Shared.EntityId.{Libraries, EntityId, Text}
use facebook_clone.Shared.Table.{find, delete_where, insert}
use facebook_clone.Shared.Table.Counting.{find-some, exists_of_find}
use facebook_clone.Post.Tables.{PostTables, has_user}
use facebook_clone.Post.PostRepository
use facebook_clone.Post.Invariant.{IsConsistent}
use facebook_clone.Post.Invariant.Queries.{find_post_lem, find_comment_lem, count_posts-le}
use facebook_clone.Post.Invariant.Rows.{with_post, update_lem}
use facebook_clone.Shared.Text.{is_blank}
use facebook_clone.Shared.Errors.{
  ok, err, type_error, integrity_error, value_error, post_not_found, comment_not_found,
  comment_permission,
}
use facebook_clone.Post.Entities.{
  Datetime, Post, Comment, create_comment, increment_comment_count, decrement_comment_count,
}
use facebook_clone.Post.CommentRepository
use facebook_clone.Post.Comments.{comment, take_back_comment, uncomment}

-- The row of a new comment
abbrev pub new_comment : Datetime → EntityId → EntityId → EntityId → Text → Comment
new_comment now new_id post_id author_id content = record {
  id = new_id;
  post_id = post_id;
  author_id = author_id;
  content = content;
  created_at = some now;
}

-- On consistent tables a comment with a new identifier is refused if the post is missing, if the
-- text is blank or longer than 2000 characters, if the row cannot be constructed, or if there is no
-- such user; otherwise it is stored and the post's counter is raised.
pub comment_outcome :
    (libs : Libraries) (now : Datetime) (new_id post_id author_id : EntityId) (content : Text)
    (d : PostTables)
    → IsConsistent d
    → find (CommentRepository.has_id new_id) d.comments ≡ none
    → comment libs now new_id post_id author_id content d
      ≡ elim (find (PostRepository.has_id post_id) d.posts) [
        | none ↦ (err post_not_found, d)
        | some post ↦
            if is_blank content || ltb 2000 (length content)
            then (err value_error, d)
            else if libs.init_takes_id
            then if has_user d author_id
              then (
                ok (new_comment now new_id post_id author_id content),
                record d {
                  comments = insert (new_comment now new_id post_id author_id content) d.comments;
                  posts = with_post post_id (increment_comment_count post) d.posts;
                },
              )
              else (err integrity_error, d)
            else (err type_error, d)
      ]
unfolding comment CommentRepository.save create_comment
comment_outcome libs now new_id post_id author_id content d h fresh =
    elim (Option-cases (find (PostRepository.has_id post_id) d.posts)) [
      | inl missing ↦ ground (arith, find_post_lem h post_id author_id)
      | inr (post, found) ↦ ground (
        arith,
        find_post_lem h post_id author_id,
        exists_of_find (PostRepository.has_id post_id) d.posts found,
        update_lem
            (record d {
              comments = insert (new_comment now new_id post_id author_id content) d.comments;
            })
            post_id (increment_comment_count post) post (count_posts-le h post_id 0) found,
        find-some (PostRepository.has_id post_id) d.posts found,
      )
    ]

-- The posts after a count is taken back; a comment may outlive its post.
abbrev pub taken_back : EntityId → List Post → List Post
taken_back post_id posts = elim (find (PostRepository.has_id post_id) posts) [
  | none ↦ posts
  | some post ↦ with_post post_id (decrement_comment_count post) posts
]

take_back_lem :
    (post_id : EntityId) (d : PostTables)
    → IsConsistent d
    → take_back_comment (find (PostRepository.has_id post_id) d.posts) d
      ≡ (ok tt, record d { posts = taken_back post_id d.posts })
take_back_lem post_id d h = elim (Option-cases (find (PostRepository.has_id post_id) d.posts)) [
  | inl missing ↦ ground arith
  | inr (post, found) ↦ ground (
    arith,
    update_lem d post_id (decrement_comment_count post) post (count_posts-le h post_id 0) found,
    find-some (PostRepository.has_id post_id) d.posts found,
  )
]

-- On consistent tables the deletion of a comment is refused if there is none, or if the user is not
-- its author; otherwise it is deleted and the post's counter is lowered.
pub uncomment_outcome :
    (comment_id user_id : EntityId) (d : PostTables)
    → IsConsistent d
    → uncomment comment_id user_id d
      ≡ elim (find (CommentRepository.has_id comment_id) d.comments) [
        | none ↦ (err comment_not_found, d)
        | some c ↦
            if c.author_id == user_id
            then (
              ok tt,
              record d {
                comments = delete_where (CommentRepository.has_id comment_id) d.comments;
                posts = taken_back c.post_id d.posts;
              },
            )
            else (err comment_permission, d)
      ]
unfolding uncomment CommentRepository.delete
uncomment_outcome comment_id user_id d h =
    elim (Option-cases (find (CommentRepository.has_id comment_id) d.comments)) [
      | inl missing ↦ ground (arith, find_comment_lem h comment_id user_id)
      | inr (c, found) ↦ ground (
        arith,
        find_comment_lem h comment_id user_id,
        find_post_lem h c.post_id user_id,
        take_back_lem c.post_id d h,
      )
    ]
