-- ===== src/FilePath/Normal.antt =====
-- Simplifying a path twice is simplifying it once, so a stored path is read back as it is.
mod Stack
mod Render
pub mod Slash
pub use Render.{simplify_path_idem}
