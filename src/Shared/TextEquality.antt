-- ===== src/Shared/TextEquality.antt =====
-- Laws of the equality of texts.
use facebook_clone.Prelude.{
  ℕ, ◌+◌, ◌≡◌, refl, arith, true, false, [], ◌∷◌, ◌++◌, length, Bool-cases, inl, inr,
}
use facebook_clone.Shared.EntityId.{Text}
use facebook_clone.Shared.Text.{text_eq}

pub text_eq_refl : (a : Text) → text_eq a a ≡ true
unfolding text_eq
text_eq_refl [] = refl
text_eq_refl (c ∷ a) = ground (arith, text_eq_refl a)

-- Equal texts are equal to the same texts.
pub text_eq_same : (a b c : Text) → text_eq a b ≡ true → text_eq a c ≡ text_eq b c
unfolding text_eq
text_eq_same [] [] c e = refl
text_eq_same [] (y ∷ b) c e = cc
text_eq_same (x ∷ a) [] c e = cc
text_eq_same (x ∷ a) (y ∷ b) [] e = refl
text_eq_same (x ∷ a) (y ∷ b) (z ∷ c) e = ground (arith, text_eq_same a b c)

pub text_eq_symm : (a b : Text) → text_eq a b ≡ text_eq b a
unfolding text_eq
text_eq_symm [] [] = refl
text_eq_symm [] (_ ∷ _) = refl
text_eq_symm (_ ∷ _) [] = refl
text_eq_symm (x ∷ a) (y ∷ b) = ground (arith, text_eq_symm a b)

pub eq_of_text_eq : (a b : Text) → text_eq a b ≡ true → a ≡ b
unfolding text_eq
eq_of_text_eq [] [] e = refl
eq_of_text_eq [] (y ∷ b) e = cc
eq_of_text_eq (x ∷ a) [] e = cc
eq_of_text_eq (x ∷ a) (y ∷ b) e = ground (arith, eq_of_text_eq a b)

pub text_eq-prefix : (p a b : Text) → text_eq (p ++ a) (p ++ b) ≡ text_eq a b
unfolding text_eq
text_eq-prefix [] a b = refl
text_eq-prefix (c ∷ p) a b = ground (arith, text_eq-prefix p a b)

text_eq-length : (a b : Text) → text_eq a b ≡ true → length a ≡ length b
unfolding text_eq
text_eq-length [] [] e = refl
text_eq-length [] (_ ∷ _) e = cc
text_eq-length (_ ∷ _) [] e = cc
text_eq-length (c ∷ a) (x ∷ b) e = ground (arith, text_eq-length a b)

length_append : (a b : Text) → length (a ++ b) ≡ length a + length b
length_append [] b = omega arith
length_append (c ∷ a) b = ground (arith, length_append a b)

-- A text is not the end of a longer one that is itself its end.
text_eq-shorter : (x : ℕ) (b q : Text) → text_eq q (x ∷ b ++ q) ≡ false
text_eq-shorter x b q = elim (Bool-cases (text_eq q (x ∷ b ++ q))) [
  | inl e ↦ ground (arith, text_eq-length q (x ∷ b ++ q) e, length_append b q)
  | inr e ↦ e
]

text_eq-longer : (x : ℕ) (b q : Text) → text_eq (x ∷ b ++ q) q ≡ false
text_eq-longer x b q = elim (Bool-cases (text_eq (x ∷ b ++ q) q)) [
  | inl e ↦ ground (arith, text_eq-length (x ∷ b ++ q) q e, length_append b q)
  | inr e ↦ e
]

pub text_eq-suffix : (a b q : Text) → text_eq (a ++ q) (b ++ q) ≡ text_eq a b
unfolding text_eq
text_eq-suffix [] [] q = text_eq_refl q
text_eq-suffix [] (x ∷ b) q = text_eq-shorter x b q
text_eq-suffix (c ∷ a) [] q = text_eq-longer c a q
text_eq-suffix (c ∷ a) (x ∷ b) q = ground (arith, text_eq-suffix a b q)
