-- ===== src/Shared/EntityId.antt =====
-- src/fb/domain/shared/entity_id.py. An `EntityId` is a UUID, and that is a 128-bit number.
-- Python's `uuid` module and SQLAlchemy are parameters; `EntityId.generate` is the new identifier
-- that a caller is handed.
use facebook_clone.Prelude.{Bool, ℕ, ◌^◌, ◌<◌, ◌≡◌, Option, none, some, List}
use facebook_clone.Shared.Errors.{Result, ok, err, value_error}

abbrev pub EntityId : Type 0
EntityId = ℕ

-- A Python `str`, by its code points.
abbrev pub Text : Type 0
Text = List ℕ

-- What the code takes from libraries.
pub record Libraries : Type 0 where
  -- `uuid.UUID(text)`, with `none` for its ValueError, and `str(uuid)`, which it reads back
  pub parse_uuid : Text → Option EntityId
  pub print_uuid : EntityId → Text
  pub parse_uuid-print_uuid : (i : EntityId) → i < 2 ^ 128 → parse_uuid (print_uuid i) ≡ some i
  -- Whether the `__init__` that SQLAlchemy makes for a mapped dataclass takes the keyword of a
  -- column with `init=False`, as the column `id` of every model is; its documentation says that it
  -- does not.
  pub init_takes_id : Bool

abbrev pub or_value_error : Option EntityId → Result EntityId
or_value_error none = err value_error
or_value_error (some i) = ok i

-- `EntityId.from_str`
abbrev pub from_str : Libraries → Text → Result EntityId
from_str libs text = or_value_error (libs.parse_uuid text)
