-- ===== src/Shared/Expiry.antt =====
-- Keys that expire, by the seconds that they have left.
use facebook_clone.Prelude.{ℕ, ◌-◌, Bool, false, Option, none, some, leb, if◌then◌else◌}

-- What a key with that many seconds left has lost after some seconds
abbrev pub is_over : ℕ → Option ℕ → Bool
is_over seconds none = false
is_over seconds (some left) = leb left seconds

abbrev pub left_after : ℕ → Option ℕ → Option ℕ
left_after seconds none = none
left_after seconds (some left) = if leb left seconds then none else some (left - seconds)
