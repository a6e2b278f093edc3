-- ===== src/Catalog.antt =====
-- The catalogue: `src/modules/catalog`.
pub mod Slugs
pub mod SlugShape
pub mod Rows
pub mod Categories
pub mod Ancestors
pub mod Forest
pub mod Updates
pub mod Checks
pub mod Deletion
pub mod Requests
mod Tests
