-- ===== src/Model.antt =====
-- The rows of the database, as backend/prisma/schema.prisma declares them, and the enumerations
-- that the services repeat as unions of literals. The columns that PostgreSQL or Prisma fill by
-- themselves and that no service reads (`updatedAt`) are left out. Money is in cents; a time is
-- in milliseconds since the epoch.
pub mod Enums
pub mod Rows
pub use Enums.*
pub use Rows.*
