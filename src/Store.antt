-- ===== src/Store.antt =====
-- The rows of the database schema that the services read and write (`prisma/schema`), the errors
-- that they throw (`src/common/errors/app-error.ts`), and the state that a request works on.
mod Stock
mod Sales
mod Context
pub mod Rows
pub use Stock.*
pub use Sales.*
unfoldable pub use Context.*
