-- ===== src/Canvas.antt =====
-- ui/src/components/builder/pipeline-canvas.ts: the visual builder. Its fields are the record
-- `Canvas`, and each handler is a function on it; a handler that waits for the cluster is split at
-- its `await`, and what follows takes the answer of the cluster as an argument.
mod State
mod Steps
mod Names
mod Yaml
mod Save
pub mod Sync
pub mod Drag
pub mod StepNames
pub mod FreshName
pub mod YamlView
pub mod Saving
pub mod Rename
pub mod Tests
unfoldable pub use State.*
unfoldable pub use Steps.*
unfoldable pub use Names.*
unfoldable pub use Yaml.*
unfoldable pub use Save.*
