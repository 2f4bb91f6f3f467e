-- ===== src/Client.antt =====
-- ui/src/lib/k8s-client.ts: the client of the Kubernetes API. `fetch` is a parameter that answers a
-- request, and so is `JSON.parse` at each type that is read. A URL is its path and the entries of
-- its `URLSearchParams`, which the platform writes out.
mod Http
mod Base64
mod Api
mod Calls
mod Stream
pub mod Errors
pub mod RoundTrip
pub mod Requests
pub mod Chunks
pub mod Tests
unfoldable pub use Http.*
unfoldable pub use Base64.*
unfoldable pub use Api.*
unfoldable pub use Calls.*
unfoldable pub use Stream.*
