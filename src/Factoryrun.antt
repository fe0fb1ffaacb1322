-- ===== src/Factoryrun.antt =====
-- internal/factoryrun: the FACTORY:RUN marker by which one session hands its evidence to the next.
pub mod Evidence
pub mod Marker
pub mod Lines
pub mod Pieces
pub mod Reading
pub mod Sorted
pub mod RoundTrip
pub mod Republish
mod Examples
