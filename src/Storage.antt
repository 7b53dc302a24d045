-- ===== src/Storage.antt =====
-- pkg/storage/keys.go: where the objects of a run are in the bucket.
pub mod Keys
pub mod Workers
pub mod Apart
mod Samples
pub mod Subtrees
pub mod RoundTrip
