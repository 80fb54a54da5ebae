-- ===== src/Cache/Glob.antt =====
-- cache.go, `globMatch`: the matcher of the keys that `GetAllKeys` returns.
mod Defs
pub mod Relation
mod Sound
mod Ends
mod Complete
pub mod Correct
pub mod Prefix
pub use Defs.{Star, rest_of}
unfoldable pub use Defs.{backtrack, only_stars, glob_loop, glob_match}
