-- ===== src/Lib.antt =====
-- Epiphany: the multidimensional core
--
-- Epiphany keeps numbers and texts in cubes. A cube has dimensions, each a list of named elements with
-- a weighted hierarchy over them (consolidations above leaves), and a sparse store of leaf cells whose
-- keys are coordinates packed into 64 bits where they fit. Reads of consolidated coordinates expand
-- each element into its leaves; writes go to leaf cells alone.
--
-- The files, and the code that they model:
--   Base, Base/*      lists, integers, results and maps that the parts share
--   Text, Text/*      texts as lists of code points: trimming, splitting, decimal digits
--   Model             crates/epiphany-core/src/error.rs: the errors, and panics beside them
--   Fixed, Fixed/*    crates/epiphany-core/src/value.rs: fixed-point numbers, printed and parsed
--   Spread, Spread/*  crates/epiphany-core/src/spread.rs: the spread of a value over leaves
--   Dimension         crates/epiphany-core/src/dimension.rs: the state of a dimension
--   Dimension/Elements, Elements/*    add_element, set_kind, pins, attribute definitions
--   Dimension/Hierarchy, Hierarchy/*  add_child, remove_child, reparent and the search reaches
--   Dimension/Leaves, Leaves/*        leaf_weights, the expansion of an element into its leaves
--   Layout, Layout/*  crates/epiphany-core/src/cube.rs: the bit layout of coordinates
--   Store, Store/*    the same file: the cell store CellStore
--   Pool, Pool/*      the same file: the interning pool StringPool
--   Cube, Cube/*      the same file: the cube, checks, writes and reads of single cells, batches
--   Cube/Consolidate, Consolidate/*   the same file: get, consolidate_with and consolidate_fed
--   Bytes, Bytes/*    byte strings: little-endian numbers, slices, UTF-8
--   Wal, Wal/*        crates/epiphany-persist/src/wal.rs: the write-ahead log, its frames and its scan
--   Durable, Durable/*  crates/epiphany-persist/src/store.rs: writes over the log, checkpoints, opening
--   Durable/Snapshot  crates/epiphany-core/src/text.rs: the load of a snapshot, its numbers and dimensions
--   ElementMask, ElementMask/*  crates/epiphany-core/src/element_mask.rs: elements hidden from a principal
--   Acl, Acl/*        crates/epiphany-security/src/acl.rs: access levels and grant lists
--   Slug, Slug/*      crates/epiphany-persist/src/slug.rs: folder names of objects
--   LoginGuard, LoginGuard/*    crates/epiphany-api/src/login_guard.rs: lockouts after failed logins
--
-- An operation that changes an object takes its state and returns the new one; an operation that can
-- fail returns a Result, whose error is a ModelError or, where the code could panic on an index, a
-- Failure. What the file system does to an append or a checkpoint is an argument of the operation. A snapshot
-- is the cube whose text it holds: a load prints and parses each number of it and finds each dimension
-- by its name; the rest of the text (elements and edges, the coordinates of the cells, string cells),
-- which the toml library writes and reads, it takes as it was. A
-- loop over a work list runs on fuel: one round for each edge of the hierarchy and two more, which is
-- enough since each element's edges are pushed once; out of fuel and out of range are the same outcome.
-- The scan of a log runs as many rounds as the file has bytes, since each frame takes some. A machine
-- integer is a number with its bound or its wrap-around written out. A hash map is an association list,
-- since the code looks up or sorts wherever order could show; its hash function is not modelled. A
-- reader of leaf values (for consolidate_with and consolidate_fed) is a function from coordinates to
-- results: it keeps no state of its own.
--
-- Not modelled: edits of a cube's schema and of the definitions in a store, the text of a
-- snapshot but for its numbers and dimension names, queries, rules and feeders, flows, the security store, the HTTP interface and
-- the clients. They rest on the parts above, or read and write texts.
pub mod Base
pub mod Text
pub mod Model
pub mod Fixed
pub mod Spread
pub mod Dimension
pub mod Layout
pub mod Store
pub mod Pool
pub mod Cube
pub mod Bytes
pub mod Wal
pub mod Durable
pub mod LoginGuard
pub mod ElementMask
pub mod Acl
pub mod Slug
