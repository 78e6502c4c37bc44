-- ===== src/Store/Entities.antt =====
-- The documents of the collections (apps/api/src/*/schemas/*.schema.ts) and the enumerations of
-- packages/contracts/src that they use. Ids and texts are numbers that stand for strings, 0 for the
-- empty one; UUIDv7 ids are ordered as their numbers. Instants are milliseconds. The stamps
-- createdAt and updatedAt, which Mongoose writes by itself, are left out.
pub mod Requests
pub mod Matching
pub mod Auth
pub mod Companies
pub mod Chat
