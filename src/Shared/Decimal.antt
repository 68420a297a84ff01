-- ===== src/Shared/Decimal.antt =====
-- `str(n)` of a natural number, which determines the number.
use facebook_clone.Prelude.{
  ℕ, zero, suc, ◌+◌, ◌-◌, ◌*◌, ◌/◌, ◌%◌, ◌<◌, ◌≡◌, refl, ap, sym, ◌∙◌, arith, false, [], ◌∷◌, ◌++◌,
  if◌then◌else◌, ltb, ◌==◌, Bool-cases, inl, inr,
}
use facebook_clone.Shared.EntityId.{Text}
use facebook_clone.Shared.Text.{text_eq}
use facebook_clone.Shared.TextEquality.{eq_of_text_eq}

-- The digits of a number, where the fuel is more than their number.
unfoldable pub digits : ℕ → ℕ → Text
digits zero n = []
digits (suc fuel) n =
    let rest = digits fuel (n / 10) in
    if ltb n 10 then (48 + n) ∷ [] else rest ++ (48 + n % 10) ∷ []

abbrev pub str : ℕ → Text
str n = digits (suc n) n

-- The number that a text of digits continues.
read : ℕ → Text → ℕ
read n [] = n
read n (c ∷ text) = read (n * 10 + (c - 48)) text

read-append : (n c : ℕ) (text : Text) → read n (text ++ c ∷ []) ≡ read n text * 10 + (c - 48)
unfolding read
read-append n c [] = refl
read-append n c (x ∷ text) = read-append (n * 10 + (x - 48)) c text

read-digits : (fuel n : ℕ) → n < fuel → read 0 (digits fuel n) ≡ n
unfolding read digits
read-digits zero n h = ground arith
read-digits (suc fuel) n h = elim (Bool-cases (ltb n 10)) [
  | inl p ↦ rw p (omega arith)
  | inr p ↦ rw p (
      read-append 0 (48 + n % 10) (digits fuel (n / 10))
      ∙ (rw (read-digits fuel (n / 10) (ground arith)) (omega arith)))
]

-- Different numbers have different texts.
pub text_eq-str : (m n : ℕ) → (m == n) ≡ false → text_eq (str m) (str n) ≡ false
text_eq-str m n d = elim (Bool-cases (text_eq (str m) (str n))) [
  | inl e ↦
      let same : m ≡ n =
        sym (read-digits (suc m) m (omega arith))
        ∙ (ap (read 0) (eq_of_text_eq (str m) (str n) e) ∙ read-digits (suc n) n (omega arith)) in
      ground arith
  | inr e ↦ e
]
