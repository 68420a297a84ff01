-- ===== src/Chat/Reading.antt =====
-- What a user has not seen, and whole conversations.
use facebook_clone.Shared.EntityId.{EntityId}
