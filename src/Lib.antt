-- ===== src/Lib.antt =====
-- kj: the toolkit library of src/ (an event loop with promises, byte streams, a command line
-- parser, text building, debug messages, the frame of a process). The modules model its code
-- part by part, and prove what each part promises.
--
-- How the code is modelled. Text and memory are lists of byte values (Text.Bytes), numbers are
-- natural numbers. A `uint` or `DWORD` that the code counts down, or that it makes of a larger
-- number, keeps its wrap-around (`% 2 ^ 32`). Sizes of objects that are in memory together are
-- not reduced: their sum is below the size of the address space. A method takes its object and
-- returns it changed. A call that throws returns `none`, or a failure with the object as the
-- call leaves it. Callbacks, lower streams and the system are parameters, and what they are
-- relied on for is a record of laws or a named hypothesis; the Examples modules instantiate each
-- by a concrete function.
--
-- Base: the names, tests on numbers and lemmas on lists that all modules share.
--
-- Text (src/string.h, src/string.cpp): `concat` is `str` and `_::concat`, with `sum` and `fill`,
-- and `str_array` is `strArray`. Text/Numbers has the printers of integers (`stringify`, `hex`),
-- over `sprintf` written out, and `to_buffer`, which is `DoubleToBuffer` with 15 digits and
-- `FloatToBuffer` with 6: `snprintf` of such a number and its parser are a parameter.
-- Text/Filling has the buffer that they fill, where a write past the end or an unwritten byte
-- fails. Text/Search has `operator==`, `startsWith` and `findFirst` of `StringPtr`.
--
-- StringTree (src/string-tree.h, src/string-tree.cpp): the tree with its branches, the
-- constructors, `concat` with the overloads of `fill`, `visit`, `flattenTo` and `flatten`.
-- Layout says what a valid tree is and what text it stands for.
--
-- EventLoop (src/async.h, src/async.cpp): the queue is kept as the code keeps it, by pointers:
-- `first` is the loop's `head`, `next`, `prev` and `firing` are the fields of events, `tail` and
-- `insert_point` are `Event**` and point to a Slot. `arm_depth_first`, `arm_breadth_first`,
-- `destroy` (`~Event`), `turn`, `run`, `enter_scope` and `leave_scope` are the functions of
-- these names, `destroy_loop` is `~EventLoop` after the end of its daemons, and `wait_impl` is
-- `waitImpl` but for the call of `get` and the end of the node, with the port's `wait` as a
-- parameter: `null_port_wait` is that of NullEventPort. Queue relates the pointers to the list
-- of waiting events; Slots, Insert and Remove are about single writes; Refine, Destroy, Order,
-- Run, Waiting and Unlinking are about the operations. `run` is bounded by its own count of
-- turns; the fuel of `wait_loop` is the number of its rounds, and that of `unlink_all` the
-- number of events. Not modelled: a callback that throws, `poll`, the daemons, and the event
-- ports of the system.
--
-- Promise (src/async-inl.h, src/async.cpp): the state of a node with one function for its calls,
-- which returns the armings that it causes; `perform` does them on the queue of EventLoop.
-- `init` and `arm` are those of `OnReadyEvent`; Adapter is `AdapterPromiseNode`, Weak is
-- `WeakFulfiller` over it, ArrayJoin and Exclusive are the join nodes, and Transform is the node
-- of `then`, by what its functions return or throw, with `wait_end` for the end of
-- `Promise::wait`. Chain is `ChainPromiseNode` over a record of the other nodes' calls. Fork is
-- the hub of a fork with the list of its branches, by pointers; the fuel of its loop is the
-- number of branches. Fulfilled, Lifecycle, Joined, Fork/Hub and Fork/Telling hold the proofs.
-- Not modelled: what a fork hub takes from its inner node, and eager and attachment nodes. What
-- the code reaches through the pointer that marks a ready node is `none`.
--
-- Streams (src/io.h, src/io.cpp): InputStream and OutputStream are the abstract classes with
-- what they hold or have taken, Delivers, Ends and WritesAll their contracts. BufferedInput and
-- Output are the buffered wrappers over any stream, Arrays the streams over memory, Fd the file
-- streams over a parameter for ReadFile and WriteFile, whose documented behaviour is ReadsFiles,
-- WritesFiles and Works. Input, Buffering, Flushing and Transfer hold the proofs. The loops take
-- as fuel the number of bytes that they are to move, since every round but the last moves one.
-- `src == bufferPos` is modelled by a call of its own, for bytes that are in the buffer already.
-- Not modelled: `AutoCloseFd` and the flush of a destructor.
--
-- CommandLine (src/main.h, src/main.cpp): Types has the options, arguments and the state of a
-- parser, Builder the calls of `MainBuilder`, Options, Arguments and Parser the parts of
-- `MainImpl::operator()`, Wrap is `wrapText`. The maps of options are lists of their entries. A
-- run ends in an Exit; the text of the help page is not modelled. The constructor of `Impl::Arg`
-- initialises the callback from itself, not from the one that it is given: what that gives is a
-- parameter of `make_arg` and of the four functions that add arguments. Distribution, Groups and
-- Counts are about how arguments are handed out, Spelling about the ways to write options, Lines
-- and Wrapped about `wrapText`, Built and Lookup about builders. The fuel of `wrapText` is the
-- length of the text, of which every round takes a byte.
--
-- Debug (src/debug.h, src/debug.cpp): `split_args` is the first loop of `makeDescription`,
-- `make_description` the whole, with the system's text for an error as a parameter. Pieces has
-- the text of arguments as it may be written, Splitting, Described and Messages the proofs. The
-- message that is logged when the numbers of names and values differ is not modelled.
--
-- Memory: what the containers use of the run time, as a parameter. Runtime has the heap and the
-- constructors and destructors of types, with a history of the objects; Heaps and Behaves are
-- what is relied on. Sample is a concrete one for examples.
--
-- Arrays (src/array.h, src/array.cpp, src/vector.h): `ExceptionSafeArrayUtil` with its loops,
-- the two disposers and `allocate_heap`, which is `HeapArrayDisposer::allocateImpl`. Builder has
-- `ArrayBuilder` by its elements and its room, Vector the calls of `Vector`, over the parameter
-- whether the heap has room. Calls that must not be made give `none`: KJ_IREQUIRE throws for
-- some of them in builds with KJ_DEBUG only. Destruction and Construction are about exceptions,
-- Growth and Calls about vectors. Not modelled: iteration, slicing and the inline arrays.
--
-- Arena (src/arena.h, src/arena.cpp): the arena by its lists and its current chunk.
-- `allocate_chunk` is the second half of `allocateBytesInternal`, `enough_for` its loop, whose
-- fuel is the amount, since every round adds one at least. Objects has `allocate` and
-- `allocateArray`, whose tag is kept in the destructor that is registered. Growing is about
-- alignment and that loop, Bounds says what a valid arena is, Allocating keeps it, Disjoint is
-- about runs, Cleanup and Lifetime about the end. Alignments are 1, 2, 4, 8 and 16 in what is
-- proved. Not modelled: `copyString`, and the calls that return owners.
--
-- Refcount (src/refcount.h, src/refcount.cpp, src/memory.h): objects with their counts, and
-- programs whose Statements assign to `Own` variables: from `refcounted`, from `addRef`, by a
-- move, or null. Checked says how a piece of code ends. Counting is about the functions of
-- Refcounted, Owning about programs. The destructor of an object drops no pointers itself.
--
-- Variants (src/one-of.h, src/common.h): OneOf and NullableValue, which a Maybe holds, over the
-- run time of Memory, where constructors and destructors throw. A call gives the object with
-- whether it throws; the loops over the variants are recursions on the list of their types.
-- Living says which object lives at an address, Tags and Assigning are about OneOf, Flaws about
-- its assignments that go wrong, Nullable about NullableValue.
--
-- Lazy (src/mutex.h, src/mutex.cpp): threads that call `Lazy::get`, as a step relation. A
-- thread's place in `get` and in `Once::runOnce` is its Pc, a Move is what it does up to the
-- next access to what is shared, and Reach are the states of any interleaving. The lock is the
-- platform's, and lets in one thread at a time. Loads and stores of the state are in one order;
-- Inv is the invariant, Safety has what threads rely on. Not modelled: `reset`, `disable`,
-- `MutexGuarded` and threads.
--
-- Exceptions (src/exception.h, src/exception.cpp, src/debug.h, src/debug.cpp): an Exception
-- keeps apart where its `file` points to: a constant text, or its own string. `make_exception`,
-- `make_owning`, `copy_exception` and `move_exception` are the constructors. The stack of
-- callbacks is the list of the contexts on it, the innermost first, with the root behind them;
-- `on_exception` and `log_message` are the calls of Debug::Context, whose fuel is the number of
-- contexts. `raise_fault` makes a fault and destroys it. Wrapping and Logging hold the proofs.
-- Not modelled: stack traces, of which a build without backtrace() has none, and how callbacks
-- come to the stack.
--
-- Process (src/main.h, src/main.cpp, and `runCatchingExceptions` of src/exception.cpp):
-- `write_line_to_fd` is `writeLineToFd`, Context the state of `TopLevelProcessContext` with its
-- calls as functions, `run_main_and_exit` the frame around a main function, which is a
-- parameter. Left says how a function is left, by an exception or by `_exit` too. The handles of
-- the system and the text of an exception with its place are a parameter, System. The number of
-- arguments is not zero in what is proved. Reports and Shutdown hold the proofs. Not modelled:
-- the log level.
--
-- Not modelled at all: task sets, ranges and the other helpers of src/common.h, and units. The
-- event port for Windows and threads are calls of the system, and the metaprogramming in
-- common.h, function.h and tuple.h does nothing at run time.
pub mod Base
pub mod Text
pub mod StringTree
pub mod EventLoop
pub mod CommandLine
pub mod Promise
pub mod Streams
pub mod Debug
pub mod Process
pub mod Memory
pub mod Arrays
pub mod Arena
pub mod Lazy
pub mod Refcount
pub mod Exceptions
pub mod Variants
