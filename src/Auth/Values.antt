-- ===== src/Auth/Values.antt =====
-- src/fb/domain/auth/value_objects.py. The regular expressions are matched from the left, and `$`
-- matches before a line feed at the end too.
use facebook_clone.Prelude.{
  ℕ, suc, Bool, true, false, ◌&&◌, ◌||◌, [], ◌∷◌, ◌==◌, leb, if◌then◌else◌,
}
use facebook_clone.Shared.Errors.{Result, ok, err, value_error}
use facebook_clone.Shared.EntityId.{Text}
use facebook_clone.Shared.Text.{is_empty}

-- `[a-zA-Z]` and `[0-9]`
abbrev pub is_letter : ℕ → Bool
is_letter c = leb 97 c && leb c 122 || (leb 65 c && leb c 90)

abbrev pub is_digit : ℕ → Bool
is_digit c = leb 48 c && leb c 57

-- `[a-zA-Z0-9._%+-]`, `[a-zA-Z0-9.-]` and `[a-zA-Z0-9_.]`
abbrev pub is_local_char : ℕ → Bool
is_local_char c = is_letter c || is_digit c || c == 46 || c == 95 || c == 37 || c == 43 || c == 45

abbrev pub is_domain_char : ℕ → Bool
is_domain_char c = is_letter c || is_digit c || c == 46 || c == 45

unfoldable pub is_name_char : ℕ → Bool
is_name_char c = is_letter c || is_digit c || c == 95 || c == 46

-- `$`
unfoldable pub at_end : Text → Bool
at_end [] = true
at_end (c ∷ []) = c == 10
at_end (_ ∷ _ ∷ _) = false

-- `[a-zA-Z]{2,}$`, where some letters are already matched
unfoldable pub match_tld : ℕ → Text → Bool
unfolding at_end
match_tld seen [] = leb 2 seen
match_tld seen (c ∷ text) =
    let rest = match_tld (suc seen) text in
    (leb 2 seen && at_end (c ∷ text)) || (is_letter c && rest)

-- `[a-zA-Z0-9.-]+\.[a-zA-Z]{2,}$`, where some of the first characters are already matched
unfoldable pub match_domain : Bool → Text → Bool
unfolding match_tld
match_domain seen [] = false
match_domain seen (c ∷ text) =
    let rest = match_domain true text in
    (seen && c == 46 && match_tld 0 text) || (is_domain_char c && rest)

-- `^[a-zA-Z0-9._%+-]+@[a-zA-Z0-9.-]+\.[a-zA-Z]{2,}$`
unfoldable pub match_local : Bool → Text → Bool
unfolding match_domain
match_local seen [] = false
match_local seen (c ∷ text) =
    let rest = match_local true text in
    (seen && c == 64 && match_domain false text) || (is_local_char c && rest)

-- `Email._is_valid`
abbrev pub is_valid_email : Text → Bool
is_valid_email email = match_local false email

-- `[a-zA-Z0-9_.]{3,50}$`, where some characters are already matched
unfoldable pub match_name : ℕ → Text → Bool
unfolding at_end
match_name seen [] = leb 3 seen && leb seen 50
match_name seen (c ∷ text) =
    let rest = match_name (suc seen) text in
    (leb 3 seen && leb seen 50 && at_end (c ∷ text))
    || (is_name_char c && leb (suc seen) 50 && rest)

-- `UserName._is_valid`
abbrev pub is_valid_user_name : Text → Bool
is_valid_user_name username = match_name 0 username

-- `Email(value)`, `UserName(value)` and `HashedPassword(value)`
unfoldable pub email : Text → Result Text
email value = if is_valid_email value then ok value else err value_error

unfoldable pub user_name : Text → Result Text
user_name value = if is_valid_user_name value then ok value else err value_error

unfoldable pub hashed_password : Text → Result Text
hashed_password value = if is_empty value then err value_error else ok value
