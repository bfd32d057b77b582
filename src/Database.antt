-- ===== src/Database.antt =====
-- The database: the rows that prisma/schema.prisma declares, Prisma's client as an interface, and
-- the client's calls as actions on the state of the server.
mod Rows
mod Model
mod Client
pub mod ListTable
unfoldable pub use Rows.*
pub use Model.*
pub use Client.*
