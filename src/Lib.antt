-- ===== src/Lib.antt =====
-- cargo-capslock lists the capabilities of a program. It has two commands. `static` builds a project to
-- LLVM bitcode, and reads the functions and calls of each module; `runtime` runs a program under ptrace,
-- and records the system calls of each process with the stack that each came from. Both give a report:
-- for each process its functions, each with its capabilities, and the calls between them.
--
-- Which file models which part (paths from the root of the repository):
--   Capslock       capslock/src: Caps is caps.rs, with the names of capabilities in Names and the order of
--                  the capability types in Types; Report is report.rs.
--   Functions      src/function.rs: Map is `FunctionMap`, Names is `parse_rust_function_name`, Build is the
--                  trait `ToFunction` and what `FunctionCaps` (src/caps.rs, capslock-rust/src/lib.rs) gives.
--   Graph          src/graph.rs: `bubble_transitive_capabilities`, as `bubble`, on the edges of the graph;
--                  CallGraph is the interface of petgraph's `DiGraphMap`, and EdgeList an instance of it.
--   Locations      src/location.rs, with the part of std::path that it uses in Paths.
--   Static         src/static/bitcode.rs: `Builder` and `Bitcode` are one record, `add_module` and
--                  `into_report` their operations. Command is `Static::main` and `Static::build` of
--                  src/static/mod.rs, with the loop over the modules in Run. Table, Arcs and Meaning say
--                  what a report of given functions and calls is, by their names, with Filled and
--                  Pictured of Functions.Map and Graph, which the runtime analysis shares; Added and
--                  Means say which modules are added, and what the loop ends with.
--   Runtime        src/runtime: Process is process.rs (`Map` and `State`), Fd is fd.rs and error.rs, Syscall
--                  is syscall/mod.rs and syscall/ioctl.rs, Lookup is location.rs, Events is `GlobalState`
--                  of mod.rs and Main its `Runtime::main`, Signals is signal.rs. Events.Ledger follows one
--                  process through a run, for its capabilities and for the stacks recorded in it.
--   CapMap         capslock-cm/src/lib.rs: the parser of the file of capabilities, and the table that the
--                  generated lookup holds, over texts as lists of characters.
--   Prelude, Collections   what the parts share: texts as lists of bytes, results, searches in texts, and
--                  BTreeMap and BTreeSet as lists in the order of their keys.
--
-- How the parts interact: Static and Runtime both build functions by Functions.Build and keep them in
-- a `FunctionMap`, whose indices are the nodes of the call graph. Static then lets callers take over the
-- capabilities of what they call; Runtime records the capabilities of a system call for every function of
-- its stack. State is passed explicitly: an operation that writes through `&mut self` returns the new
-- state, also beside an error. A HashMap that is read by key only is an OrdMap as well.
--
-- The one loop without a structural bound is `while changed` of the call graph. It runs on fuel, one more
-- than the number of capabilities times the number of functions; a round that changes something gives a
-- function a capability that it lacked, so that is enough. Running out of fuel, and a panic of
-- `unwrap`, are results of their own. Integers of the source are compared or masked; only the offset of a
-- stack frame and the number of a line are added to, and both are far below the bound of their type.
--
-- Parameters: the demangler of `symbolic`; petgraph's graph, with laws; the descriptors, the numbers of
-- system calls and the constants of libc; what procfs shows at an event; what each reading of an
-- executable gives, by the number of the reading, since /proc/{pid}/exe changes at an exec; the stack that
-- libunwind shows; the lines of the file that capslock-cm reads, the order in which its HashSets are
-- iterated, and for the syscalls its table; the functions and calls that llvm-ir-analysis finds in a module;
-- escargot's `CargoBuild`; and what the system answers to the two commands: the child that is spawned, the
-- results of its tracer, directories and their walk, `kill`, and whether files can be made and written.
--
-- Not modelled: the parsing of the command line (src/lib.rs, src/bin), the thread that forwards signals, of
-- which the loop is modelled, the text of the JSON input and output, and the cache of address spaces, which
-- changes no result and is taken to be made whenever it is asked for, since libunwind fails to make one
-- only where no memory is left. llvm-ir-analysis is a copy of another project.
pub mod Prelude
pub mod Collections
pub mod Capslock
pub mod Paths
pub mod Locations
pub mod Functions
pub mod Graph
pub mod Static
pub mod CapMap
pub mod Runtime
