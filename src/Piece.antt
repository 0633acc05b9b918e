-- ===== src/Piece.antt =====
-- internal/piece: the geometry of pieces and blocks, and piece verification.
pub mod Geometry
pub mod Verify
pub mod Tests
