-- ===== src/Post/PostRepository.antt =====
-- src/fb/infrastructure/repositories/post_repo.py
use facebook_clone.Prelude.{
  ltb, length, if◌then◌else◌, ℕ, Bool, true, false, ◌&&◌, not, Option, none, some, List, ◌==◌, map,
}
use facebook_clone.Shared.Errors.{err, value_error, data_error}
use facebook_clone.Shared.Effects.{Effect, pure, raise, gets, modify, ◌>>=◌, ◌>>◌}
use facebook_clone.Shared.EntityId.{EntityId}
use facebook_clone.Shared.Table.{
  exists, select, count, update_where, find, scalar_one_or_none, add, stored,
}
use facebook_clone.Post.Entities.{Datetime, Post}
use facebook_clone.Post.Tables.{PostTables, has_user, has_post}

abbrev pub has_id : EntityId → Post → Bool
has_id i p = p.id == i

-- The rows that `find_by_ids` selects, in the order of the identifiers, none for a miss.
unfoldable pub find_by_ids : List EntityId → PostTables → List (Option Post)
find_by_ids post_ids d = map (λ i. find (has_id i) d.posts) post_ids

unfoldable pub find_by_id : EntityId → Effect PostTables (Option Post)
find_by_id post_id = gets (λ d. scalar_one_or_none (select (has_id post_id) d.posts))

-- `ARRAY(String(500))`
abbrev pub is_too_long : Post → Bool
is_too_long p = exists (λ url. ltb 500 (length url)) p.media_urls

-- The counters and `is_published` of a new row are the defaults of the columns.
unfoldable pub save : Datetime → Post → Effect PostTables Post
unfolding add
save now post d =
    let row = record post {
      like_count = 0;
      comment_count = 0;
      is_published = true;
      created_at = some now;
    } in
    if is_too_long row
    then (err data_error, d)
    else stored (λ rows t. record t { posts = rows })
        (add (has_user d row.author_id && not (has_post d row.id)) row d.posts) d

-- The columns that `update` assigns
abbrev pub assign : Post → Post → Post
assign post model = record model {
  content = post.content;
  media_urls = post.media_urls;
  like_count = post.like_count;
  comment_count = post.comment_count;
  is_published = post.is_published;
}

abbrev pub update_found : Post → Option Post → Effect PostTables Post
update_found post none = raise value_error
update_found post (some model) = do
  modify (λ d. record d { posts = update_where (has_id post.id) (assign post) d.posts })
  pure (assign post model)

unfoldable pub update : Post → Effect PostTables Post
unfolding find_by_id
update post = do model ← find_by_id post.id; update_found post model

unfoldable pub delete : EntityId → Effect PostTables Unit
unfolding find_by_id
delete post_id = do
  model ← find_by_id post_id
  modify (λ d. elim model [
    | none ↦ d
    | some _ ↦ record d {
      posts = update_where (has_id post_id) (λ p. record p { is_published = false }) d.posts;
    }
  ])

abbrev pub is_published_by : EntityId → Post → Bool
is_published_by author_id p = p.author_id == author_id && p.is_published

unfoldable pub count_by_author : EntityId → PostTables → ℕ
count_by_author author_id d = count (is_published_by author_id) d.posts
