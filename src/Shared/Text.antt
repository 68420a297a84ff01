-- ===== src/Shared/Text.antt =====
-- `str.strip` and equality of `str`.
use Prim.Native.Char.{code}
use mathlib.Core.List.{reverse}
use facebook_clone.Prelude.{
  ℕ, String, Bool, true, false, ◌&&◌, ◌||◌, List, [], ◌∷◌, ◌==◌, leb, if◌then◌else◌,
}
use facebook_clone.Shared.EntityId.{Text}

-- `ch.isspace()`
unfoldable pub is_space : ℕ → Bool
is_space c =
    leb 9 c && leb c 13
    || leb 28 c && leb c 32
    || c == 133
    || c == 160
    || c == 5760
    || leb 8192 c && leb c 8202
    || c == 8232
    || c == 8233
    || c == 8239
    || c == 8287
    || c == 12288

-- `text.lstrip()`
unfoldable pub lstrip : Text → Text
unfolding is_space
lstrip [] = []
lstrip (c ∷ text) = let rest = lstrip text in if is_space c then rest else c ∷ text

-- `text.strip()`
unfoldable pub strip : Text → Text
unfolding lstrip
strip text = reverse (lstrip (reverse (lstrip text)))

-- `not text`
abbrev pub is_empty {ℓ} : {A : Type ℓ} → List A → Bool
is_empty [] = true
is_empty (_ ∷ _) = false

-- `not text or not text.strip()`
abbrev pub is_blank : Text → Bool
is_blank text = is_empty text || is_empty (strip text)

-- `a == b` of two texts
unfoldable pub text_eq : Text → Text → Bool
text_eq [] [] = true
text_eq (a ∷ s) (b ∷ t) = a == b && text_eq s t
text_eq _ _ = false

-- The code points of a literal.
abbrev pub codes : String → Text
codes String.[] = []
codes (String.◌∷◌ c s) = code c ∷ codes s
