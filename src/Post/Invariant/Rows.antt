-- ===== src/Post/Invariant/Rows.antt =====
-- What the writes of the repositories leave of the counters.
use facebook_clone.Prelude.{refl, [], ◌∷◌, ◌≤◌, ◌≡◌, some, List, arith}
use facebook_clone.Shared.Errors.{ok}
use facebook_clone.Shared.EntityId.{EntityId}
use facebook_clone.Shared.Table.{count, exists, find, update_where}
use facebook_clone.Shared.Table.Counting.{scalar_one_or_none-select}
use facebook_clone.Shared.Table.Keys.{Unique, Unique-update_where}
use facebook_clone.Post.Entities.{Post}
use facebook_clone.Post.Tables.{PostTables}
use facebook_clone.Post.PostRepository
use facebook_clone.Post.PostRepository.{has_id, assign}
use facebook_clone.Post.Invariant.{same_post}

-- The tables after a write of a post
abbrev pub with_post : EntityId → Post → List Post → List Post
with_post i post posts = update_where (has_id i) (assign post) posts

-- A write of a post that is there
pub update_lem :
    (d : PostTables) (i : EntityId) (post m : Post)
    → count (has_id i) d.posts ≤ 1
    → find (has_id i) d.posts ≡ some m
    → post.id ≡ i
    → PostRepository.update post d
      ≡ (ok (assign post m), record d { posts = with_post i post d.posts })
unfolding PostRepository.update PostRepository.find_by_id
update_lem d i post m u e p = rw p (ground (arith, scalar_one_or_none-select (has_id i) d.posts u))

pub Unique-update_post :
    (i : EntityId) (post : Post) (posts : List Post)
    → Unique same_post posts
    → Unique same_post (with_post i post posts)
Unique-update_post i post posts =
    Unique-update_where same_post (has_id i) (assign post) posts (λ x y. refl) (λ x y. refl)

-- A write of a post adds and removes no key.
pub exists-update_post :
    (i j : EntityId) (post : Post) (posts : List Post)
    → exists (has_id j) (with_post i post posts) ≡ exists (has_id j) posts
unfolding exists update_where
exists-update_post i j post [] = refl
exists-update_post i j post (p ∷ posts) = ground (arith, exists-update_post i j post posts)
