-- ===== src/Lib.antt =====
-- dat0: a local-first data workbench over DuckDB.
--
-- The program is a Rust workspace. crates/dat0-engine holds the transformations that a user stacks on
-- a table, and compiles a stack to the SQL of a view; crates/dat0-core holds the application state
-- without a user interface: the undo history of each tab, the grid's selection and clipboard, the
-- query console, the assistant; crates/dat0-format reads, writes and compares packages; crates/dat0-ui
-- draws. A user's action reaches the view model, which changes its stacks and has the renderer compile
-- the present stack; the caller creates the view that comes back and drops the one before it. The
-- grid, its selection and its clipboard work on the rows of that view.
--
-- Which file models which part:
--
--   Prelude            lists with the source's `Vec` operations, texts, decimal numbers and
--                      `str::parse::<i64>`, Boolean tests, and `Prelude/Scan` for loops over bytes with
--                      one byte of lookahead
--   Engine/Transform   crates/dat0-engine/src/transform.rs: the transformations, the replay split, the
--                      check of dates and timestamps
--   Engine/Render      crates/dat0-engine/src/render.rs and `quote_ident` of catalog.rs: `Literal` has
--                      the escapes and literals, `Filter` the filters and sorts, `Overlay` the edited
--                      cells, `Compile` the fold over the stack and the assembled SELECT
--   View/Model         crates/dat0-core/src/view/model.rs: the state and `regenerate_view`; `Calls` has
--                      the public methods, and `Action` a call with its arguments as a value
--   View/Columns       crates/dat0-core/src/view/column_view.rs: the visible columns
--   View/SortHeader    crates/dat0-core/src/view/sort_header.rs: clicks on the sort zone (`find` and
--                      `click` are find_key and sort_click here)
--   View/FilterPopover crates/dat0-core/src/view/filter_popover.rs; `Events` has the handlers of
--                      crates/dat0-ui/src/components/filter_popover.rs, and `open_funnel` and
--                      `funnel_outcome` of crates/dat0-ui/src/components/grid/views.rs
--   View/Runner        crates/dat0-core/src/view/spawn.rs: a change of the view driven through the
--                      engine, and `change_on` of crates/dat0-ui/src/components/grid/views.rs
--   Workspace          `LockManifest` has crates/dat0-core/src/workspace/lock_manifest.rs and `open` of
--                      crates/dat0-ui/src/workspace_open.rs; `World` has the windows on one
--                      workspace and each machine's copy of the lock file, as steps
--   Grid/Selection     crates/dat0-core/src/grid/selection.rs; `Spans` has the rows and columns
--   Grid/Keymap        crates/dat0-core/src/grid/keymap.rs
--   Grid/Clipboard     crates/dat0-core/src/grid/clipboard.rs: the tab-separated text
--   Grid/DataSource    crates/dat0-core/src/grid/data_source.rs: pages, their cache, and the columns
--   Query/Statement    crates/dat0-core/src/query/statement.rs: the split into statements, and the one
--                      under the cursor; `Blank` reads the Unicode white space off UTF-8,
--                      `Keyword` has the leading keyword and `classify`, and `Lexemes` describes
--                      a buffer as strings, quoted identifiers, comments and other bytes,
--                      independently of the scanner
--   Inspector          `Lineage` has crates/dat0-core/src/inspector/lineage.rs: the lineage graph
--                      and the walk around a table, on more fuel than there are edges
--   Assistant/Sse      crates/dat0-core/src/ai/sse.rs: the decoder of the event stream
--   Assistant/Ssrf     crates/dat0-core/src/ai/ssrf.rs: the check of a custom base URL
--   Catalog            crates/dat0-core/src/catalog: `Tree` has the groups, `Nav` the visible rows and
--                      the keys
--   Format/Diff        crates/dat0-format/src/diff.rs, over the records of Format/Model
--   Format/Replay      crates/dat0-format/src/replay.rs: the order of the derived tables
--
-- Conventions. A `String` is the list of its UTF-8 bytes (`Text`); the operations modelled split
-- and search at ASCII bytes, which no other character contains. Only `trim`, of the popover and of
-- the assistant's stream, reads a text by its code points. An `i64` is an integer, an `f64` its 64
-- bits. A `usize` is a number below 2^64 and an `isize` lies between -2^63 and 2^63; sums that can
-- leave the range wrap, as in a release build, and so does the 32-bit counter of views. A method
-- that changes `&mut self` maps the old state to the new one. A panic (`expect`, a slice off a
-- character boundary, `clamp` with crossed bounds) is the result `none`; an `Err` is a value of a
-- result type. A `Vec` used as a stack has its last element first, so the undo history's oldest
-- snapshot is the last one; the history keeps 200 snapshots, as in the source. The loop over the
-- queue in Format/Replay is bounded by the number of derived tables that it can see for the first
-- time, which is all of them; the `while` loop of Assistant/Sse by the length of its buffer, of
-- which each round takes a byte or more; the comments in front of a statement by its length, of
-- which each takes two bytes or more; the walk of Inspector/Lineage by the number of edges, since a
-- node is pushed once only; every other loop of the source is over a list, and ends with it. The
-- depth in the lineage graph, a `u32`, stays below the number of nodes.
--
-- Parameters. `Host` gives what the renderer takes from elsewhere: the `{:?}` form of a float, and
-- the verdict of the crate `regex` on a pattern; `FloatText` gives how an `f64` parses and prints.
-- `ViewEngine` is what the runner uses of the engine: calls that create, drop and read views, and
-- what DuckDB documents of them. The diff takes the equality of derivations, which the compiler
-- derives from the type. The data source takes the cache of the crate `lru`, as a record of its
-- operations and what it documents of them, the engine's `execute_page`, and the reading of a cell.
-- The replay takes the order in which a `HashMap` goes through its entries, and the assistant's
-- stream how `String::from_utf8_lossy` decodes a line. The catalog's filter takes
-- `str::to_lowercase` and `str::split_whitespace`, the check of a base URL what the crate `url`
-- parses, the lineage graph the parents of an SQL table that DuckDB finds, and the lock manifest
-- which process identifiers the operating system reports as alive, what reading the lock file finds,
-- whether a write of it succeeds, and when the file that one
-- machine wrote arrives on another, which is the sync provider's work (docs/workspaces.md).
--
-- Not modelled: the user interface but for the handlers named above, DuckDB and the code that calls
-- it, files but for the lock manifest's one, the local lock, the network, the serialized forms that serde derives, localized texts and the
-- build tools.
mod Prelude
pub mod Engine
pub mod View
pub mod Workspace
pub mod Grid
pub mod Format
pub mod Query
pub mod Catalog
pub mod Inspector
pub mod Assistant
