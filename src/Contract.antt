-- ===== src/Contract.antt =====
-- The types that runs, wrappers and callers exchange: runtime.go, metadata.go, lifecycle.go, cache.go
-- and the data of validation.go. The names of the children are passed on.
mod Session
mod Checks
mod Request
mod Result
mod Zero
unfoldable pub use Session.*
pub use Checks.*
pub use Request.*
pub use Result.*
pub use Zero.*
