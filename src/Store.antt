-- ===== src/Store.antt =====
-- The state that the use cases share: the documents, the collections that hold them, and the
-- repositories' methods, each a step from one state to the next.
mod Docs
mod Collection
mod State
mod Repositories
mod Queries
mod Ledger
unfoldable pub use Docs.*
unfoldable pub use Collection.*
unfoldable pub use State.*
unfoldable pub use Repositories.*
unfoldable pub use Queries.*
unfoldable pub use Ledger.*
