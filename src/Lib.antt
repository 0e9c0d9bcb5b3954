-- ===== src/Lib.antt =====
-- The Go host of a DuckDB engine that wasm2go has compiled: the C++ exception runtime that the engine
-- imports, its host file system with the lock registry of database files, its WASI file system, and the Go
-- driver: its connections, statements and rows over the engine, the decoders of types and of cells, the
-- texts of values, the tracking of transactions and the interrupts of a cancelled context.
--
-- Parts, and how they interact.
--
-- Exhost (converge/exhost) gives the compiled module its C++ exceptions. A throw is a Go panic, which
-- the nearest `invoke_<sig>` trampoline turns into a flag that the compiled code reads; its landing pad
-- then asks the host which handler matches, and the handler begins and ends its catch in the host.
--  - Exhost/Abi: `ModuleABI` and `ExceptionRefcounter` of host.go as records, and `Lawful`, what the
--    host relies on of a module: words are read back as written, and the module's own calls keep the
--    headers of live objects. The module is compiled from C++ and is a parameter everywhere.
--  - Exhost/Host: the state of `Host` and the accessors of the exception header; Exhost/Calls: every
--    imported call of host.go, and the trampolines of invokes.go, one function for all signatures.
--    A call takes the host and the module's state and gives both back with how it ends (`Outcome`).
--  - Exhost/Header has the laws of the header, Exhost/TypeIds the ids of types, Exhost/Matching the
--    landing pad, Exhost/Handlers the handlers, Exhost/Trampolines the invokes, Exhost/Cycle a whole
--    throw and catch. Addresses and counts are int32 values as ℕ below 2 ^ 32.
--
-- Locks (converge/wasishim/hostfs_lockreg.go, hostfs_lock_unix.go) refuses a second engine in one
-- process the database file of a first.
--  - Locks: the three maps as one record, and every operation; the mutex makes each call one step.
--  - Locks/Holders: the abstract view, the list of open files that hold locks; Locks/Refinement: the
--    maps implement it; Locks/Exclusion: what holds in every state that the calls reach.
--
-- HostFs (converge/wasishim/hostfs.go) is the file system of the engine: files are opened by path, with
-- a lock if asked, and read into the module's linear memory.
--  - HostFs/Os: the operating system as a record of functions, a parameter everywhere; HostFs/Memory:
--    linear memory as bytes; HostFs/State: the descriptor table beside the lock registry of Locks,
--    which other engines of the process change between the calls of this one;
--    HostFs/Open, Files and Paths: every `Xhost_*` call. None as a reply is a Go panic.
--  - HostFs/Copy has the laws of memory, HostFs/LockPaths those of locks; HostFs/OpenFiles and
--    HostFs/Reach are about descriptors, HostFs/Transfer about reads and HostFs/Listing about directories.
--
-- Wasi (converge/wasishim/fs.go) is the WASI preview 1 file system, with paths below one preopened
-- directory. `s *Shim` is the record `Shim`: the table of descriptors, linear memory and the world of the
-- operating system. Each `X…` function is one step from a state to a reply, the error number and the state
-- after it; None is a Go panic.
--  - Wasi/Os: the packages os, io, time and path/filepath, a parameter; Wasi/State: the table,
--    `errno` and the helpers of memory; Wasi/Resolve: `resolvePath`; Wasi/Iovecs and Transfer: reads and
--    writes; Wasi/Files: the other calls on descriptors; Wasi/Open and Paths: the calls on paths;
--    Wasi/Readdir: `Xfd_readdir`, whose records Wasi/Listing writes out. Wasi/Calls has all of them as one
--    type, and the states that they reach; Wasi/Confinement and Wasi/Descriptors are proofs over these.
--
-- Duckdb/TypeDecode (converge/duckdb/typedecode.go) turns the binary form of a type into SQL text.
--  - Reader: `typeDec`, with how a read ends (`Run`); Types: `decodedType`, its text and the quoting of
--    names; Decode: `readLogicalType`, `readTypeInfo` and `typeBlobString`. Encode writes the wire
--    format that the head of the Go file states; Fuel, RoundTrip and Quoting are proofs.
--
-- Duckdb/Driver (converge/duckdb/driver.go, module.go, result.go) is a connection with its statements
-- and rows, over the engine. The engine is compiled code: the record `Engine` has a function for each
-- call that the driver makes of it, and none as an answer is a Go panic. A piece of driver code is a
-- function from a session, which is the engine's world with the flags of the connection, to how it ends
-- and the session behind it; the lock makes each entry point one step. The session also notes what the
-- driver is given and what it gives back: handles, buffers of the engine's memory, and texts of the
-- engine; what nested decoders take and give back is inside the parameter that reads a cell. A panic and the
-- poisoning behind it are one step, though the source lets go of the lock between them.
--  - Module: the marshalling of module.go; Rows: the chunks of a result, with fuel for the loop of
--    `Next`, which one more than the chunks is enough for; TypeNames: `typeName`; Stmt: statements, binds, and the
--    recovery of a transaction with the functions of Duckdb/Transactions; Open: `open`; Conn: the entry
--    points, with the guard that poisons a module on a panic. The texts of errors, and in Rows the
--    reading of a cell with the cache of nested decoders, are parameters; Duckdb/Results has the reading of flat cells.
--  - Nets (Counts, Flow, Rules) has rules for code that takes and gives back, and Balance and its
--    children apply them to every function (Metas to what `newRows` reads of a type), Leaks to the entry points, Scratch to `open`; Clients has
--    the calls in any order, Ledger, Effects and Accounts their invariant, Poisoned what a panic leaves.
--  - Stream: Feed is what the engine promises of a result that comes in chunks, as laws on its calls, and
--    Delivery what `Next` replies over it; the fuel of its loop is more than the chunks.
--
-- Duckdb/Values (converge/duckdb/decimal.go, exotic.go) writes decimals, bignums, uuids and blobs as
-- text. The definitions stand in Duckdb/Values, and each child reads one kind back; Digits has the
-- decimal digits that strconv and math/big write.
--
-- Duckdb/Geometry (converge/duckdb/exotic.go) writes a geometry, which the engine gives as WKB, as WKT.
-- `geometry_string` follows `geometryString`, with a function for each closure and loop of
-- `wktRecursive`; Shapes has the geometries with their WKB and WKT, Wkb and Wkt are proofs.
--
-- Duckdb/Nested (converge/duckdb/nested.go, variant.go) quotes the texts inside lists and structs, and
-- writes structs and maps for debugging; Quoting reads a quoted text back.
--
-- Duckdb/Variants (converge/duckdb/variant.go) decodes a row of a VARIANT vector into text, out of the
-- engine's memory. Duckdb/Variants has the readers of bytes and numbers, Render `renderValue` with a
-- function for each group of type ids. A row may hold itself, so that `renderValue` has fuel; Trees
-- has the rows that hold a tree, for which its levels are enough, and Varints is about payloads.
--
-- Duckdb/Times (converge/duckdb/exotic.go, result.go) writes times of day and intervals; Clock reads
-- them back.
--
-- Duckdb/Timestamps (converge/duckdb/exotic.go, result.go) writes dates, timestamps, times with an offset
-- and bits; Split is about the days of a timestamp.
--
-- Duckdb/Results (converge/duckdb/result.go) reads a cell of a flat vector out of the engine's memory, by
-- the type of its column. `decode` follows `decode`, in groups of its cases; Memory has the laws of its
-- reads, and Integers and Strings the cells as the engine stores them, read back.
--
-- Duckdb/Transactions (converge/duckdb/driver.go) follows explicit transactions: a batch is split into
-- statements and the leading words of each set or clear a flag of the connection. Statements and
-- Batches are proofs; a batch there is a run of characters and quoted texts.
--
-- Duckdb/Interrupt (converge/duckdb/interrupt.go) stops a running statement when its context is
-- cancelled. `resolveInterruptFlag` is a function on memory, over the engine's own interrupt; an armed
-- region is a record with the places of the watcher and of the caller, and the selects and channels of
-- `armInterrupt` are step relations over it. Flag and Watcher are proofs.
--
-- Bounds and fuel. `read_logical_type` recurses on fuel for the nesting; `type_blob_string` gives it
-- one more than the blob has bytes, and each nested type takes at least one. `wkt_recursive` recurses on
-- the 17 levels that `depth > 16` allows. `cstr_words` makes the 128 rounds of the source.
-- `digits_fuel` gets one more than the number. `rounds` of an I/O vector is its length, as the loops
-- count. Uint64 arithmetic wraps at 2 ^ 64, int32 at 2 ^ 32.
--
-- Not modelled: the trace log and the debug prints of host.go; the Go runtime's panics on an address
-- outside the module's memory in Exhost; the file systems, the network and the engine that are called,
-- symbolic links among them, since paths are compared as texts; the mutex of the WASI calls, each of
-- which is one step; clocks, random numbers and arguments of the shim; the connector,
-- the appender and user-defined functions of the driver, and its conversion of nested cells; the tools under
-- converge/cmd, harness and scripts.
pub mod Base
pub mod Exhost
pub mod Locks
pub mod HostFs
pub mod Wasi
pub mod Duckdb
