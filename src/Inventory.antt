-- ===== src/Inventory.antt =====
-- Stock levels and reservations: `src/modules/inventory/services` and
-- `src/modules/orders/services/orderInventory.service.ts`.
pub mod Holds
pub mod Reservations
pub mod Levels
pub mod OrderHolds
pub mod Balance
pub mod Closing
pub mod Branches
pub mod Soundness
pub mod Sweep
pub mod OrderStock
pub mod Expiry
pub mod LevelStates
pub mod Pool
pub mod Chains
pub mod Refinement
pub mod Requests
pub mod Simulation
pub mod LevelRuns
pub mod ReservationRuns
pub mod Realisation
pub mod Outcomes
mod Tests
