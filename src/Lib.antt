-- ===== src/Lib.antt =====
-- Verification of the web client of jobrunner, a runner of Kubernetes pipelines. The client is
-- written in TypeScript under ui/src: it draws a Pipeline resource as a graph, builds pipelines step
-- by step or as YAML text, and talks to the cluster over HTTP.
--
-- The parts and the files that model them:
--   * Types (ui/src/types/pipeline.ts): the Pipeline resource with its pods, its status and the
--     graph of the views. An interface is a record, a union of literals is a data type, an optional
--     field is an Option.
--   * Graph (ui/src/lib/graph-layout.ts): pipeline_to_graph, layout_graph, the default pipeline and
--     step. Graph/StepName is validateStepName, and Graph/Cycle is wouldCreateCycle.
--   * Canvas (ui/src/components/builder/pipeline-canvas.ts): the builder. Its fields are the record
--     Canvas/State.Canvas, and each handler is a function from canvas to canvas; Canvas/Steps has
--     the steps and their drags, Canvas/Names the names, Canvas/Yaml the text view, Canvas/Save the
--     save. A handler with an `await` is a function before it and one after it that takes the
--     answer of the cluster.
--     Canvas/Sync has the invariant of the handlers, Canvas/Sync/Reach their runs in any order,
--     and Canvas/Sync/Commands the machine on a list of steps that Canvas/Sync/Runs says they are.
--   * Editor (ui/src/components/builder/step-editor.ts): the form of a step; a handler returns the
--     update that it sends to the builder, which Canvas/Steps merges in. Editor/Offered has the
--     state of the form and the secrets that it offers.
--   * Settings (ui/src/components/builder/global-settings.ts): the form of the settings; a handler
--     returns the pipelines that it sends to the builder, which takes them in receive_updates.
--   * Client (ui/src/lib/k8s-client.ts): the methods of K8sClient. Client/Http has `request`,
--     Client/Calls the methods that wait for one answer, Client/Stream the watch and the log stream,
--     Client/Base64 what the secrets are encoded with.
--   * Sorting and Paging (ui/src/components/monitor/pipeline-list.ts, and with the same code
--     ui/src/components/storage/pvc-list.ts and secret-list.ts): the search and the order of a list,
--     its pages and buttons, and in Paging/View what is shown of it.
--   * Polling (the same three files): the loads of a list view, with their answers in any order. What
--     they need of a view is the record Polled, which Secrets/Polling, Claims/Polling and
--     Pipelines/Polling fill, and Shell/Lists is about a view and the shell together.
--   * Secrets (ui/src/components/storage/secret-list.ts): the list of secrets; Secrets/Forms has the
--     forms that create, show and edit a secret, and Secrets/Shown the list and its rows.
--   * Claims (ui/src/components/storage/pvc-list.ts): the list of volume claims and its create form;
--     Claims/Shown has the list and its rows.
--   * Pipelines (ui/src/components/monitor/pipeline-list.ts): the list of pipelines as it is searched
--     and ordered; Pipelines/Menu has the handlers of its headers and of a pipeline's menu, and
--     Pipelines/Row the rows, and Pipelines/Badge the badge of a phase
--     (ui/src/components/shared/status-badge.ts).
--   * Detail (ui/src/components/monitor/pipeline-detail.ts): the page of a pipeline, its load in the
--     two waits and the cache of the drawer; Detail/Drawing has the canvas and the arrows of the
--     graph, Detail/Duration the durations, and Detail/Step (step-detail.ts beside it) the logs and
--     events of one step.
--   * Shell (ui/src/components/app-shell.ts): the namespace and the active link of the sidebar.
--   * Server (ui/src/server.ts): how the development server answers a request.
--   * Router (ui/src/lib/router.ts): the routes, the redirects and the component that is shown.
--   * Prelude: texts, lists, sets and the outcome of awaited calls, shared by all of them.
--
-- A text is the list of its UTF-16 code units, and a number is a natural number, since the code
-- counts and places with them. A JavaScript Set or Map is a list in the order of insertion. An
-- exception is the constructor `failed` of Answer with its message, or `none` where the code drops
-- the message. The builder calls the client, and the model passes the answer on as an argument.
--
-- Three functions run on fuel. The search of wouldCreateCycle gets as much as there are names in the
-- adjacency map, and each call visits a new one; the loops for a unique name get two rounds more
-- than there are names that are taken, and each round meets another of them. A navigation of
-- the router gets three rounds, since the routes redirect twice at most. The theorems on them state
-- that an answer comes.
--
-- Parameters of the model are the layout of ELK, `stringify` and `parse` of the package yaml, `fetch`
-- with the bodies of its responses, JSON.parse and JSON.stringify, URLPattern, which files exist for the
-- server and what the API answers it, and how the platform compares texts and reads dates. Not
-- modelled are the markup and the styles, timers and listeners but for what they call, the path text
-- of an arrow, the build and the start of the server, the widgets around CodeMirror and the drawer,
-- and the Go controller.
mod Prelude
pub mod Types
pub mod Graph
pub mod Canvas
pub mod Client
pub mod Sorting
pub mod Paging
pub mod Polling
pub mod Secrets
pub mod Router
pub mod Pipelines
pub mod Claims
pub mod Editor
pub mod Settings
pub mod Detail
pub mod Server
pub mod Shell
