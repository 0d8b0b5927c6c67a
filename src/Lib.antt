-- ===== src/Lib.antt =====
-- A model of rusty_v8, the Rust bindings of the V8 JavaScript engine, and of what its own code does
-- around the C++ library: text conversion, the lifecycle of the process, handles,
-- isolates with their parameters, contexts and scopes, the classes of values, the buffer of the
-- serializer, and the build script.
--
-- The parts, and the files that model them:
--
--   Base      tests on numbers, lists over the native numbers, bits, and loops with a condition.
--   Strings   src/string.rs. Utf8 and Utf16 are the encodings as the standard library documents
--             them. Latin1 is `latin1_to_utf8`, on byte lists in place of raw pointers. Host is what
--             the code takes from elsewhere: memory, `String` and `Vec`, and the simdutf functions
--             of src/simdutf.rs, a parameter with their documented behaviour. Convert is the helpers
--             `latin1_to_string`, `wtf16_to_string`, `wtf16_into_string`, `latin1_to_cow_str` and
--             `wtf16_to_cow_str`, with the feature simdutf and without. View is `ValueView` and
--             the methods of `String` that make Rust text from it. Write is the constructors from buffers
--             and the writes to buffers.
--   V8        src/V8.rs: `GlobalState` behind its mutex, and the calls that reach C++.
--   Handle    src/handle.rs. Host is `HandleHost`. Finalizers is `FinalizerMap`, with
--             `run_remaining_guaranteed_finalizers` of src/isolate.rs. Weak is one `Weak` with its
--             `WeakData`, which V8's two garbage collection callbacks share with it. Global is the
--             globals of one isolate.
--   Isolate   src/isolate.rs. Slots is `RawSlot` and the slots of `IsolateAnnex`, DataSlots the
--             embedder data slots beside the annex pointer, Owned is `OwnedIsolate`: new, drop with
--             its teardown, and `create_blob` up to the snapshot creator. Shared is
--             `IsolateHandle` and its requests from other threads. V8's data slots and its
--             stack of entered isolates are parameters, with the laws of an array, up to
--             its length, and of a stack.
--   Scope     src/scope.rs: handle, escapable, callback and context scopes, as nested code that asks for
--             the current context or escapes a handle; Cached relates the cell that caches the
--             context to V8's own. V8's stacks of contexts and of handle scopes are a parameter.
--   Context   src/context.rs: `ContextAnnex` with the finalizer that frees it, the slots, and the
--             embedder data beside them. Promise is the map that the slots stand for, Steps one
--             operation, Life a context
--             from its first use to the end of its isolate, with FinalizerMap of Handle/Finalizers.
--             V8's fields, of which there is a limit, and the allocator are parameters.
--   Data      src/data.rs. Classes and the files beside it are what the macros implement for each class
--             of values, as tables; Conversions is `Deref`, `From` and `TryFrom`, Equality is
--             `PartialEq` and `Eq`. V8's predicates and comparisons are parameters.
--   Buffers   src/array_buffer.rs, boxes and vectors that a backing store takes over, with the external
--             strings of src/string.rs: each block of memory from its allocation to the deleter that V8
--             calls. The allocator is a parameter.
--   Serializer  src/value_serializer.rs: the buffer that the delegate reallocates and frees for V8, and
--             `release`. What V8 asks for and writes is the sequence of requests.
--   Support   src/support.rs. Shared is `SharedPtr` and `SharedRef` over the trait `Shared`, with
--             `assert_use_count_eq`; Offsets is `FieldOffset` and `MaybeBool`.
--   Flags     src/property_attribute.rs, src/property_filter.rs, src/property_handler_flags.rs, and
--             Builder, which is src/get_property_names_args_builder.rs.
--   Params    src/isolate_create_params.rs and src/snapshot.rs: `CreateParams` and `StartupData`, whose raw
--             pointers lead into memory that `CreateParamAllocations` keeps. Calls is the chains of
--             calls that build the parameters, what V8 reads of them, and the lives of an isolate
--             and of a `SnapshotCreator` as far as `create_blob`; Blocks says who owns which block,
--             Kept and Life what one call and a chain keep, Ends what is read and freed. What V8
--             serializes is a parameter.
--   Build     build.rs. Environment is the names and URLs that the script computes from its environment,
--             Arguments is what `build_v8` passes to gn,
--             Download is `download_file` and `copy_archive` over the files, with the panics that keep
--             what was done before, Inflate is `decompress_to_writer`. The programs that download,
--             cargo's home and miniz are parameters.
--
-- How they interact: the methods of View choose between the helpers of Convert, which call Latin1 or
-- the library; the weak handle takes its ids from the finalizer map and asks the isolate's handle
-- whether the isolate is live; making and dropping an isolate asks src/V8.rs for its state first; the
-- annex of a context is freed by a finalizer in the finalizer map, or by clearing its slots; the blob that
-- a snapshot creator of Params returns is the data of the parameters of another isolate.
--
-- A panic, a failed assertion, and an access that the language leaves undefined are `none`. Loops that
-- Rust ends by a condition take fuel: `latin1_to_utf8` gives each loop one step more than it
-- can take, which the theorem about it shows to be enough. `use_count_eq` of
-- Support has the round in which the clock passes its timeout as its bound, and the walk to the
-- superclasses of a class, six steps, is longer than any. A `usize` that counts ids wraps at 2^64.
--
-- Not modelled: what C++ does behind a call, but for the order in which V8 may run weak callbacks;
-- the bindings that only pass arguments on, as those for resource constraints; the destructor of a
-- snapshot creator; what the build script does by running other programs;
-- threads, other than by the mutexes of `GlobalState` and of `IsolateHandle`, each of which one call
-- holds from start to end.
pub mod Base
pub mod Strings
pub mod V8
pub mod Handle
pub mod Isolate
pub mod Scope
pub mod Context
pub mod Data
pub mod Buffers
pub mod Serializer
pub mod Support
pub mod Flags
pub mod Params
pub mod Build
