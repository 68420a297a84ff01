-- ===== src/Cache/Keys.antt =====
-- src/fb/infrastructure/cache/keys.py
use facebook_clone.Prelude.{ℕ, ◌≡◌, refl, Bool, false, ◌++◌}
use facebook_clone.Shared.EntityId.{Text}
use facebook_clone.Shared.Text.{codes, text_eq}
use facebook_clone.Shared.Decimal.{str}

-- The seconds that an entry lives
abbrev pub ttl_profile : ℕ
ttl_profile = 300

abbrev pub ttl_post : ℕ
ttl_post = 120

abbrev pub ttl_user_posts : ℕ
ttl_user_posts = 60

abbrev pub ttl_friends_list : ℕ
ttl_friends_list = 600

abbrev pub ttl_friend_count : ℕ
ttl_friend_count = 120

abbrev pub ttl_notif_unread : ℕ
ttl_notif_unread = 30

unfoldable pub profile_key : Text → Text
profile_key user_id = codes "profile:" ++ user_id

unfoldable pub post_key : Text → Text
post_key post_id = codes "post:" ++ post_id

unfoldable pub user_posts_key : Text → ℕ → ℕ → Text
user_posts_key user_id limit offset =
    codes "user_posts:" ++ user_id ++ codes ":" ++ str limit ++ codes ":" ++ str offset

unfoldable pub friends_list_key : Text → Text
friends_list_key user_id = codes "friends:" ++ user_id

unfoldable pub friend_count_key : Text → Text
friend_count_key user_id = codes "friend_count:" ++ user_id

unfoldable pub notif_unread_key : Text → Text
notif_unread_key user_id = codes "notif_unread:" ++ user_id

-- The entries of one user or one post
pub data Entry : Type 0 where
  profile_entry post_entry friends_entry friend_count_entry notif_unread_entry : Text → Entry

unfoldable pub key_of : Entry → Text
unfolding profile_key post_key friends_list_key friend_count_key notif_unread_key
key_of (profile_entry i) = profile_key i
key_of (post_entry i) = post_key i
key_of (friends_entry i) = friends_list_key i
key_of (friend_count_entry i) = friend_count_key i
key_of (notif_unread_entry i) = notif_unread_key i

-- Whether two entries are the same
unfoldable pub same_entry : Entry → Entry → Bool
same_entry (profile_entry i) (profile_entry j) = text_eq i j
same_entry (post_entry i) (post_entry j) = text_eq i j
same_entry (friends_entry i) (friends_entry j) = text_eq i j
same_entry (friend_count_entry i) (friend_count_entry j) = text_eq i j
same_entry (notif_unread_entry i) (notif_unread_entry j) = text_eq i j
same_entry _ _ = false

-- Two entries share a key exactly if they are of one kind and of one user or post.
pub text_eq-key_of : (a b : Entry) → text_eq (key_of a) (key_of b) ≡ same_entry a b
unfolding text_eq key_of same_entry
text_eq-key_of (profile_entry i) (profile_entry j) = refl
text_eq-key_of (profile_entry i) (post_entry j) = refl
text_eq-key_of (profile_entry i) (friends_entry j) = refl
text_eq-key_of (profile_entry i) (friend_count_entry j) = refl
text_eq-key_of (profile_entry i) (notif_unread_entry j) = refl
text_eq-key_of (post_entry i) (profile_entry j) = refl
text_eq-key_of (post_entry i) (post_entry j) = refl
text_eq-key_of (post_entry i) (friends_entry j) = refl
text_eq-key_of (post_entry i) (friend_count_entry j) = refl
text_eq-key_of (post_entry i) (notif_unread_entry j) = refl
text_eq-key_of (friends_entry i) (profile_entry j) = refl
text_eq-key_of (friends_entry i) (post_entry j) = refl
text_eq-key_of (friends_entry i) (friends_entry j) = refl
text_eq-key_of (friends_entry i) (friend_count_entry j) = refl
text_eq-key_of (friends_entry i) (notif_unread_entry j) = refl
text_eq-key_of (friend_count_entry i) (profile_entry j) = refl
text_eq-key_of (friend_count_entry i) (post_entry j) = refl
text_eq-key_of (friend_count_entry i) (friends_entry j) = refl
text_eq-key_of (friend_count_entry i) (friend_count_entry j) = refl
text_eq-key_of (friend_count_entry i) (notif_unread_entry j) = refl
text_eq-key_of (notif_unread_entry i) (profile_entry j) = refl
text_eq-key_of (notif_unread_entry i) (post_entry j) = refl
text_eq-key_of (notif_unread_entry i) (friends_entry j) = refl
text_eq-key_of (notif_unread_entry i) (friend_count_entry j) = refl
text_eq-key_of (notif_unread_entry i) (notif_unread_entry j) = refl
