-- ===== src/Post/Outcomes/Posts.antt =====
-- `CreatePostUseCase`, `UpdatePostUseCase` and `DeletePostUseCase` on every branch: what they write
-- in their session, and what they answer.
use facebook_clone.Prelude.{
  ◌≡◌, Bool, true, Option, none, some, arith, ◌==◌, ◌||◌, ltb, length, inl, inr, Option-cases,
  if◌then◌else◌,
}
use facebook_clone.Shared.Errors.{
  Result, ok, err, integrity_error, data_error, value_error, post_not_found, post_permission,
}
use facebook_clone.Shared.EntityId.{EntityId, Text, Libraries}
use facebook_clone.Shared.Text.{is_blank}
use facebook_clone.Shared.Table.{exists, find, insert}
use facebook_clone.Shared.Table.Counting.{find-some, not_exists_of_find}
use facebook_clone.Post.Entities.{
  Datetime, Post, create_post, post_content, update_content, unpublish,
}
use facebook_clone.Post.Tables.{PostTables, has_user}
use facebook_clone.Post.PostRepository
use facebook_clone.Post.PostRepository.{assign}
use facebook_clone.Post.Posts.{CreatePostInput, or_empty, post_output, publish, edit, remove}
use facebook_clone.Post.Invariant.{IsConsistent}
use facebook_clone.Post.Invariant.Queries.{find_post_lem, count_posts-le}
use facebook_clone.Post.Invariant.Rows.{with_post, update_lem}

-- What `PostContent` refuses
abbrev pub is_bad_content : Text → Bool
is_bad_content content = is_blank content || ltb 5000 (length content)

-- The row of a new post
abbrev pub new_post : Datetime → EntityId → EntityId → CreatePostInput → Post
new_post now new_id author_id input = record {
  id = new_id;
  author_id = author_id;
  content = input.content;
  media_urls = or_empty input.media_urls;
  like_count = 0;
  comment_count = 0;
  is_published = true;
  created_at = some now;
}

-- A post with a new identifier is refused if its content is blank or too long, if its author's
-- identifier is malformed, if the URL of a medium is too long, or if there is no such user; otherwise it is stored, with no likes and
-- no comments.
pub publish_outcome :
    (libs : Libraries) (now : Datetime) (new_id : EntityId) (input : CreatePostInput)
    (d : PostTables)
    → find (PostRepository.has_id new_id) d.posts ≡ none
    → publish libs now new_id input d ≡ (
        if is_bad_content input.content
        then (err value_error, d)
        else elim (libs.parse_uuid input.author_id) [
          | none ↦ (err value_error, d)
          | some a ↦
              if exists (λ url. ltb 500 (length url)) (or_empty input.media_urls)
              then (err data_error, d)
              else if has_user d a
              then (
                ok (post_output libs (new_post now new_id a input)),
                record d { posts = insert (new_post now new_id a input) d.posts },
              )
              else (err integrity_error, d)
        ])
unfolding publish post_content create_post PostRepository.save
publish_outcome libs now new_id input d fresh =
    ground (arith, not_exists_of_find (PostRepository.has_id new_id) d.posts fresh)

-- The session and the answer after the write of a post that was found
abbrev pub written : EntityId → Post → PostTables → Result Post × PostTables
written i post d = (ok post, record d { posts = with_post i post d.posts })

-- On consistent tables an edit is refused if the post is missing, if the user is not its author, or
-- if the new content is blank or too long. Otherwise the content is replaced, if there is a new
-- one.
pub edit_outcome :
    (post_id user_id : EntityId) (content : Option Text) (d : PostTables)
    → IsConsistent d
    → edit post_id user_id content d ≡ elim (find (PostRepository.has_id post_id) d.posts) [
      | none ↦ (err post_not_found, d)
      | some post ↦
          if post.author_id == user_id
          then elim content [
            | none ↦ written post_id post d
            | some text ↦
                if is_bad_content text
                then (err value_error, d)
                else written post_id (update_content text post) d
          ]
          else (err post_permission, d)
    ]
unfolding edit post_content
edit_outcome post_id user_id none d h =
    elim (Option-cases (find (PostRepository.has_id post_id) d.posts)) [
      | inl missing ↦ ground (arith, find_post_lem h post_id user_id)
      | inr (post, found) ↦ ground (
        arith,
        find_post_lem h post_id user_id,
        update_lem d post_id post post (count_posts-le h post_id 0) found,
        find-some (PostRepository.has_id post_id) d.posts found,
      )
    ]
edit_outcome post_id user_id (some text) d h =
    elim (Option-cases (find (PostRepository.has_id post_id) d.posts)) [
      | inl missing ↦ ground (arith, find_post_lem h post_id user_id)
      | inr (post, found) ↦ ground (
        arith,
        find_post_lem h post_id user_id,
        update_lem d post_id (update_content text post) post (count_posts-le h post_id 0) found,
        find-some (PostRepository.has_id post_id) d.posts found,
      )
    ]

-- Only its author takes a post down; the row stays, unpublished.
pub remove_outcome :
    (post_id user_id : EntityId) (d : PostTables)
    → IsConsistent d
    → remove post_id user_id d ≡ elim (find (PostRepository.has_id post_id) d.posts) [
      | none ↦ (err post_not_found, d)
      | some post ↦
          if post.author_id == user_id
          then (ok tt, record d { posts = with_post post_id (unpublish post) d.posts })
          else (err post_permission, d)
    ]
unfolding remove
remove_outcome post_id user_id d h =
    elim (Option-cases (find (PostRepository.has_id post_id) d.posts)) [
      | inl missing ↦ ground (arith, find_post_lem h post_id user_id)
      | inr (post, found) ↦ ground (
        arith,
        find_post_lem h post_id user_id,
        update_lem d post_id (unpublish post) post (count_posts-le h post_id 0) found,
        find-some (PostRepository.has_id post_id) d.posts found,
      )
    ]
