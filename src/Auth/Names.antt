-- ===== src/Auth/Names.antt =====
-- The user names that are accepted.
use facebook_clone.Prelude.{
  ℕ, suc, ◌+◌, ◌≡◌, arith, Bool, true, false, ◌&&◌, [], ◌∷◌, ◌==◌, leb, length, if◌then◌else◌, ◌||◌,
  Bool-cases, inl, inr,
}
use facebook_clone.Shared.EntityId.{Text}
use facebook_clone.Auth.Values.{is_name_char, is_valid_user_name, match_name, at_end}

-- A text without one line feed at its end
unfoldable pub chomp : Text → Text
chomp [] = []
chomp (c ∷ []) = if c == 10 then [] else c ∷ []
chomp (c ∷ d ∷ text) = c ∷ chomp (d ∷ text)

unfoldable pub all_name_chars : Text → Bool
all_name_chars [] = true
all_name_chars (c ∷ text) = is_name_char c && all_name_chars text

line_feed_lem : (c : ℕ) → (c == 10) ≡ true → is_name_char c ≡ false
unfolding is_name_char
line_feed_lem c e = ground arith

empty_lem :
    (seen : ℕ) → (leb 3 seen && leb seen 50) ≡ (true && leb 3 (seen + 0) && leb (seen + 0) 50)
empty_lem seen = ground arith

single_lem :
    (seen : ℕ) (b : Bool)
    → (leb 3 seen && leb seen 50 && true || (false && leb (suc seen) 50 && b))
      ≡ (true && leb 3 (seen + 0) && leb (seen + 0) 50)
single_lem seen b = ground arith

one_more_lem :
    (seen : ℕ) (x : Bool)
    → (leb 3 seen && leb seen 50 && false
        || (x && leb (suc seen) 50 && (leb 3 (suc seen) && leb (suc seen) 50)))
      ≡ (x && true && leb 3 (seen + 1) && leb (seen + 1) 50)
one_more_lem seen x = ground arith

step_lem :
    (seen n : ℕ) (x a : Bool)
    → (leb 3 seen && leb seen 50 && false
        || (x && leb (suc seen) 50 && (a && leb 3 (suc seen + n) && leb (suc seen + n) 50)))
      ≡ (x && a && leb 3 (seen + suc n) && leb (seen + suc n) 50)
step_lem seen n x a = ground arith

match_name_lem :
    (seen : ℕ) (text : Text)
    → match_name seen text ≡ (
        all_name_chars (chomp text)
        && leb 3 (seen + length (chomp text))
        && leb (seen + length (chomp text)) 50)
unfolding match_name chomp all_name_chars at_end
match_name_lem seen [] = empty_lem seen
match_name_lem seen (c ∷ []) = elim (Bool-cases (c == 10)) [
  | inl e ↦ rw e rw (line_feed_lem c e) (single_lem seen (leb 3 (suc seen) && leb (suc seen) 50))
  | inr e ↦ rw e (one_more_lem seen (is_name_char c))
]
match_name_lem seen (c ∷ d ∷ text) =
    rw (match_name_lem (suc seen) (d ∷ text)) (
      step_lem seen (length (chomp (d ∷ text))) (is_name_char c)
        (all_name_chars (chomp (d ∷ text))))

-- A user name is accepted exactly if, without one line feed at its end, it has 3 to 50 characters,
-- each a letter, a digit, an underscore or a dot.
pub is_valid_user_name_lem :
    (text : Text)
    → is_valid_user_name text
      ≡ (all_name_chars (chomp text) && leb 3 (length (chomp text)) && leb (length (chomp text)) 50)
is_valid_user_name_lem text = ground (arith, match_name_lem 0 text)
