-- ===== src/Lib.antt =====
-- Unpack is a bundler: it builds modules, connects them into a module graph, gathers them into chunks,
-- finds the runtime code that the chunks need, and keeps what it computed in a persistent cache.
-- Paths below are from the root of the repository.
--
-- Prelude holds what all parts share: vectors with their panicking and their total accesses, hash
-- maps as association lists, Boolean tests, bits of machine words, stable sorting. A write or read
-- that panics in the source is `none` here, and so is an error that is returned early.
--
-- Dependency is crates/unpack_core/src/dependency.rs with the types of src/dependencies: the kinds
-- of dependency and the tests on them.
-- Module is module.rs, dependencies_block.rs and async_dependencies_block.rs of the same crate: a
-- module, its identity and its built content.
-- ModuleGraph is module_graph.rs and module_graph_connection.rs. `ModuleGraphStorage` holds modules,
-- connections and three indices; `add_module`, `connect`, `update_connection_module`,
-- `finish_module_build` and `fail_module` are its operations. ModuleGraph/Indexed states what the
-- indices say of the connections.
-- Runtime is runtime.rs. A set of runtime requirements is a mask of eleven bits.
-- `resolve_runtime_modules` repeats a round until the set no longer grows; the model runs it on fuel
-- 12, which is enough, since every round but the last adds one of eleven requirements.
-- Chunk is chunk.rs, chunk_group.rs and the `RenderId` of id_assignment.rs.
-- ChunkGraph is chunk_graph.rs: chunks, groups and modules with their relations, each stored in both
-- directions. ChunkGraph/Consistent is the invariant that the directions agree.
-- PackFile is the encoder, the decoder and the records of cache/pack_file.rs. PackFile/Coder is
-- the monad of code that reads or writes bytes and may fail; a String is its UTF-8 bytes, and a
-- machine integer is a number with its range as a hypothesis.
-- Cache is the memory layer of cache/memory_with_gc_cache_plugin.rs, which drops an entry that was not
-- used for a number of completed compilations. Cache/Layers is every layer of the cache with what it
-- answers to a lookup, Cache/Stack and Cache/Stack/Gets are `CacheLayers` of cache/cache_layers.rs: what is
-- stored, got, promoted, put off to be read from the pack file, cleared and counted. What a pack file does
-- with an access, and what was read from it, comes in from outside; the counters are numbers without bound.
-- ModuleMask is the set of modules of build_chunk_graph.rs, bits in words of 64 bits.
-- Worklist is the loop that build_chunk_graph.rs and make.rs have in several forms: take an item, pass
-- over one that was visited, push its successors. Worklist/Reach says what it visits and Worklist/Measure
-- when it ends; the fuel of every loop that goes back to it is one round for each edge, one for the start
-- and one for the end. Worklist/Acyclic is about the edges that such a loop guards.
-- BuildChunkGraph is build_chunk_graph.rs: `collect_static_reachable` (Static), `chunk_group_reaches` and
-- the linking of groups (Linking), and `AsyncChunkPlan` (Plans).
-- Make is make.rs: `MakeState` and its operations, the tasks (Make/Tasks) and, in Make/Steps, `run` as a
-- step relation. The main queue is worked off in order, background tasks and loaders take effect at any
-- moment, and what a factory, a cache, a file or a parser answers is free. What a loader asks for is built in
-- a queue of its own. A task that returns an error drops its queue, or all where it is one of `run`; what
-- was dropped is kept beside the state to speak of it.
-- WatchCache is unsafe_watch_cache.rs with `is_affected_by` of snapshot.rs.
--
-- The make phase fills the module graph while modules are built; the building of the chunk graph
-- reads it; the chunk graph refers to its modules by handle, and to the runtime requirements of
-- Runtime; the pack file stores the dependencies of Dependency in a form of its own.
--
-- Not modelled: parsing, code generation and rendering, which assemble text or call a third-party
-- parser; the resolver and the file system; hooks and logging; the Node bindings. The channel that
-- wakes who waits for a build is no value of the model, and what a spawned task still does after
-- `run` returned an error is no step of it. The loop over pending chunk groups and
-- apply_split_chunks, the preparation and publication of the persistent layer, exports analysis, and
-- what a factory or a build does to get its outcome are not part of it yet.
pub mod Prelude
pub mod Dependency
pub mod Module
pub mod ModuleGraph
pub mod Runtime
pub mod Chunk
pub mod ChunkGraph
pub mod PackFile
pub mod Cache
pub mod ModuleMask
pub mod Worklist
pub mod BuildChunkGraph
pub mod Make
pub mod WatchCache
