-- ===== src/Post/Tests.antt =====
-- The theorems on posts at a small database: user 1 has written a post, which user 2 likes and has
-- commented on.
use facebook_clone.Prelude.{
  List, Bool, take, drop, length, ltb, ◌==◌, ◌&&◌, ◌≡◌, refl, true, some, [], ◌∷◌,
}
use facebook_clone.Shared.Errors.{ok, err, cannot_share_own_post}
use facebook_clone.Shared.Samples.{libs}
use facebook_clone.Shared.Text.{codes, strip, lstrip, is_space}
use facebook_clone.Shared.Table.{find, count, exists, update_where}
use facebook_clone.Post.Entities.{Post, Like, Comment, love}
use facebook_clone.Post.Tables.{PostTables}
use facebook_clone.Post.Invariant.{IsConsistent}
use facebook_clone.Post.Likes.{like}
use facebook_clone.Post.Reactions.{react}
use facebook_clone.Post.Comments.{comment}
use facebook_clone.Post.Shares.{share}
use mathlib.Core.List.{map}
use facebook_clone.Post.Comments.{comment_output}
use facebook_clone.Post.Lists.{or_epoch, get_comments}
use facebook_clone.Shared.Table.Paging.{IsDescending}
use facebook_clone.Post.Lists.Pages.{get_comments_lem}
use facebook_clone.Post.Outcomes.Likes.{like_outcome}
use facebook_clone.Post.Outcomes.Reactions.{react_outcome, new_reaction}
use facebook_clone.Post.Outcomes.Comments.{comment_outcome, new_comment}
use facebook_clone.Post.Outcomes.Shares.{share_outcome}
use facebook_clone.Post.Endpoints.{Request, here, next, serve, unlike_post, add_reaction}
use facebook_clone.Post.Endpoints.Consistency.{Served-IsConsistent}

abbrev hello : Post
hello = record {
  id = 10;
  author_id = 1;
  content = codes "hello";
  media_urls = [];
  like_count = 1;
  comment_count = 1;
  is_published = true;
  created_at = some 5;
}

abbrev first_like : Like
first_like = record { id = 30; post_id = 10; user_id = 2; created_at = some 6 }

abbrev answer : Comment
answer = record { id = 40; post_id = 10; author_id = 2; content = codes "hi"; created_at = some 7 }

abbrev tables : PostTables
tables = record {
  users = 1 ∷ 2 ∷ [];
  posts = hello ∷ [];
  likes = first_like ∷ [];
  reactions = [];
  comments = answer ∷ [];
  shares = [];
}

tables-IsConsistent : IsConsistent tables
unfolding count exists
tables-IsConsistent = record {
  post_ids = (refl, tt);
  like_ids = (refl, tt);
  like_pairs = (refl, tt);
  reaction_ids = tt;
  reaction_pairs = tt;
  share_ids = tt;
  comment_ids = (refl, tt);
  like_posts = (refl, tt);
  reaction_posts = tt;
  comment_posts = (refl, tt);
  counted = (record { of_likes = refl; of_comments = refl }, tt);
}

-- A second like
like_outcome_example : like libs 8 31 10 1 tables ≡ (
  ok (record { id = 31; post_id = 10; user_id = 1; created_at = some 8 }),
  record tables {
    likes = first_like ∷ record { id = 31; post_id = 10; user_id = 1; created_at = some 8 } ∷ [];
    posts = record hello { like_count = 2 } ∷ [];
  },
)
unfolding find exists update_where
like_outcome_example = like_outcome libs 8 31 10 1 tables tables-IsConsistent refl

-- A first reaction, which counts beside the like
react_outcome_example : react 8 50 10 2 love tables ≡ (
  ok (new_reaction 8 50 10 2 love),
  record tables {
    reactions = new_reaction 8 50 10 2 love ∷ [];
    posts = record hello { like_count = 2 } ∷ [];
  },
)
unfolding find exists update_where
react_outcome_example = react_outcome 8 50 10 2 love tables tables-IsConsistent refl

comment_outcome_example : comment libs 8 41 10 1 (codes "yes") tables ≡ (
  ok (new_comment 8 41 10 1 (codes "yes")),
  record tables {
    comments = answer ∷ new_comment 8 41 10 1 (codes "yes") ∷ [];
    posts = record hello { comment_count = 2 } ∷ [];
  },
)
unfolding find exists update_where strip lstrip is_space
comment_outcome_example =
    comment_outcome libs 8 41 10 1 (codes "yes") tables tables-IsConsistent refl

share_outcome_example : share 8 60 10 1 [] tables ≡ (err cannot_share_own_post, tables)
unfolding find
share_outcome_example = share_outcome 8 60 10 1 [] tables tables-IsConsistent refl

-- User 2 reacts to the post, and takes the like back.
abbrev reaction : Request
reaction =
    add_reaction 9 50 (record { post_id = 10 ∷ []; user_id = 2 ∷ []; reaction_type = codes "LOVE" })

abbrev second_thought : Request
second_thought = unlike_post (record { post_id = 10 ∷ []; user_id = 2 ∷ [] })

Served-IsConsistent_example : IsConsistent (serve libs second_thought (serve libs reaction tables))
unfolding find
Served-IsConsistent_example =
    Served-IsConsistent libs tables-IsConsistent
      (next (next here reaction refl refl) second_thought tt refl)

-- A second comment, which is stored first
abbrev later : Comment
later = record { id = 41; post_id = 10; author_id = 1; content = codes "yes"; created_at = some 9 }

abbrev commented : PostTables
commented = record tables { comments = later ∷ answer ∷ [] }

get_comments_lem_example :
    (newest : List Comment) × IsDescending (λ c. or_epoch c.created_at) newest
    × ((p : Comment → Bool)
        → count p newest ≡ count (λ c. c.post_id == 10 && p c) commented.comments)
    × (get_comments libs (10 ∷ []) 1 1 commented ≡ (
      ok (record {
        comments = map (comment_output libs) (take 1 (drop 1 newest));
        total_count = length newest;
        has_next_page = ltb 2 (length newest);
      }),
      commented,
    ))
get_comments_lem_example = get_comments_lem libs (10 ∷ []) 10 1 1 commented refl
