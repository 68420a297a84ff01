-- ===== src/Shared/Samples.antt =====
-- Concrete libraries for the modules named Tests.
use facebook_clone.Prelude.{refl, true, Option, none, some, [], ◌∷◌}
use facebook_clone.Shared.EntityId.{EntityId, Text, Libraries}

-- Identifiers written as one character
abbrev parse : Text → Option EntityId
parse [] = none
parse (c ∷ []) = some c
parse (_ ∷ _ ∷ _) = none

abbrev pub libs : Libraries
libs = record {
  parse_uuid = parse;
  print_uuid = λ i. i ∷ [];
  parse_uuid-print_uuid = λ i h. refl;
  init_takes_id = true;
}
