-- ===== src/Scraper.antt =====
-- internal/scraper/glob.go: the files that the artifact patterns of a Test name.
pub mod Globs
pub mod Sorting
pub mod Added
pub mod Matched
mod Samples
