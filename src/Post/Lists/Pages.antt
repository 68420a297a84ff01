-- ===== src/Post/Lists/Pages.antt =====
-- The pages of a post's comments, and the reactions to it by their types.
use facebook_clone.Prelude.{
  take, drop, ◌==◌, ℕ, ◌+◌, ◌≡◌, refl, Bool, ◌&&◌, List, [], ◌∷◌, length, ltb, map, some, arith,
  ◌∙◌,
}
use facebook_clone.Shared.Errors.{ok}
use facebook_clone.Shared.EntityId.{EntityId, Text, Libraries}
use facebook_clone.Shared.Table.{select, count, order_by_desc}
use facebook_clone.Shared.Table.Paging.{
  length-select, length-order_by_desc, ltb-length-page, IsDescending, order_by_desc-IsDescending,
  count-order_by_desc, count-select,
}
use facebook_clone.Post.Entities.{Comment, Reaction, same_type, like, love, haha, wow, sad, angry}
use facebook_clone.Post.Tables.{PostTables}
use facebook_clone.Post.CommentRepository
use facebook_clone.Post.ReactionRepository
use facebook_clone.Post.Comments.{comment_output}
use facebook_clone.Post.Lists.{or_epoch, find_comments, count_by_type, get_comments}

next_page_lem :
    (post_id : EntityId) (limit offset : ℕ) (d : PostTables)
    → ltb
        (offset + length (find_comments post_id limit offset d))
        (count (CommentRepository.is_of post_id) d.comments)
      ≡ ltb (limit + offset) (count (CommentRepository.is_of post_id) d.comments)
unfolding find_comments
next_page_lem post_id limit offset d =
    let of_post = select (CommentRepository.is_of post_id) d.comments in
    let newest = order_by_desc (λ c. or_epoch c.created_at) of_post in
    let total : length newest ≡ count (CommentRepository.is_of post_id) d.comments =
      length-order_by_desc (λ c. or_epoch c.created_at) of_post
      ∙ length-select (CommentRepository.is_of post_id) d.comments in
    ground (arith, total, ltb-length-page limit offset newest)

-- There is an order of the comments on a post, all of them and nothing else, from the newest to the
-- oldest, such that the answer, for an identifier that is read, has the comments of that order
-- after the offset, as many as the limit, the number of all, and says that more follow exactly if
-- there are more than the offset and the limit add up to.
pub get_comments_lem :
    (libs : Libraries) (text : Text) (post_id limit offset : ℕ) (d : PostTables)
    → libs.parse_uuid text ≡ some post_id
    → (newest : List Comment) × IsDescending (λ c. or_epoch c.created_at) newest
      × ((p : Comment → Bool)
          → count p newest ≡ count (λ c. c.post_id == post_id && p c) d.comments)
      × (get_comments libs text limit offset d ≡ (
        ok (record {
          comments = map (comment_output libs) (take limit (drop offset newest));
          total_count = length newest;
          has_next_page = ltb (limit + offset) (length newest);
        }),
        d,
      ))
unfolding get_comments CommentRepository.count_by_post find_comments
get_comments_lem libs text post_id limit offset d e =
    let of_post = select (CommentRepository.is_of post_id) d.comments in
    let newest = order_by_desc (λ c. or_epoch c.created_at) of_post in
    let total : length newest ≡ count (CommentRepository.is_of post_id) d.comments =
      length-order_by_desc (λ c. or_epoch c.created_at) of_post
      ∙ length-select (CommentRepository.is_of post_id) d.comments in
    (
      newest,
      order_by_desc-IsDescending (λ c. or_epoch c.created_at) of_post,
      λ p.
          count-order_by_desc p (λ c. or_epoch c.created_at) of_post
          ∙ count-select p (CommentRepository.is_of post_id) d.comments,
      ground (arith, next_page_lem post_id limit offset d, total),
    )

by_type_lem :
    (q : Reaction → Bool) (rows : List Reaction)
    → count (λ r. q r && same_type r.reaction_type like) rows
        + count (λ r. q r && same_type r.reaction_type love) rows
        + count (λ r. q r && same_type r.reaction_type haha) rows
        + count (λ r. q r && same_type r.reaction_type wow) rows
        + count (λ r. q r && same_type r.reaction_type sad) rows
        + count (λ r. q r && same_type r.reaction_type angry) rows
      ≡ count q rows
unfolding count same_type
by_type_lem q [] = refl
by_type_lem q (r ∷ rows) = ground (arith, by_type_lem q rows)

-- The counts of the six types add up to the count of the reactions to a post.
pub count_by_type_lem :
    (post_id : EntityId) (d : PostTables)
    → count_by_type post_id d like
        + count_by_type post_id d love
        + count_by_type post_id d haha
        + count_by_type post_id d wow
        + count_by_type post_id d sad
        + count_by_type post_id d angry
      ≡ ReactionRepository.count_by_post post_id d
unfolding count_by_type ReactionRepository.count_by_post
count_by_type_lem post_id d = by_type_lem (ReactionRepository.is_of post_id) d.reactions
