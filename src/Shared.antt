-- ===== src/Shared.antt =====
-- What every component uses: errors and effects, identifiers, texts and database tables.
pub mod Errors
pub mod Effects
pub mod EntityId
pub mod Text
pub mod TextEquality
pub mod Decimal
pub mod Expiry
pub mod Table
pub mod Samples
