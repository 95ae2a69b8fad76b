-- ===== src/Lib.antt =====
-- A model of v8h, a JavaScript runtime over V8 for network programs on Linux (src/, C++; its
-- JavaScript is in coffee/), with the theorems that make its core correct.
--
-- The program. `Buffer` (src/buffer.cc) is the byte queue that all input and output go through: a
-- block of memory, `cursor` where the contents begin, `size` of them, `used` where they end, and
-- `reserve`, the capacity. `Socket` (src/socket.cc) fills a buffer from a descriptor and sends one to
-- it. `Service` (src/service.cc) waits with epoll and calls JavaScript back. coffee/core/socket.coffee
-- calls these; its `readToken` searches a growing buffer with `partial_find` (src/algorithm.cc).
-- `underline_to_camel` of the same file names the C++ functions for JavaScript.
--
-- Base: C's tests on numbers, lists over native numbers, memory, outcomes. A `size_t` has 64 bits
--   and an `int` 32; both are kept as bit patterns, and their wrap-around is written out. An
--   `Outcome` is `ok`, `fault` (what C leaves undefined: a read or write outside the allocated
--   memory, through a dangling pointer or through NULL) or `spin` (a loop that the model has given no
--   more rounds).
-- Algorithm: src/algorithm.cc. `match_from` and `find_loop` are the two loops of `partial_find`,
--   `leading_loop` and `camel_loop` those of `underline_to_camel`. A text is the list of its bytes
--   without its NUL. Find and Resume are about `partial_find`, Camel, Names and Room about
--   the names.
-- Buffer: the class of src/buffer.h and its members in src/buffer.cc, by their names; `new` is the
--   constructor and `destroy` the destructor; the overloads of `write` are `write`, `write_text` and
--   `write_buffer`, the last one for two buffers, and `write_self` for one. A member that changes the
--   object returns the new one. What `malloc` and `realloc` leave in new memory is a parameter. A
--   pointer into a block is an offset (`Source`), and it dangles when `realloc` has moved the block,
--   as it may whenever the capacity changes. Valid has the invariant; Grow, Write, Alias,
--   Consume, Read and Search have what the members do, and Queue has any sequence of them.
-- Engine: what is used of V8, which is no part of the repository: values and their conversions.
-- BufferObject: the functions of src/buffer.cc that JavaScript calls, on a store of the internal
--   fields of objects, so that two arguments may be one object; `forward_0_0`, `forward_1_0`,
--   `forward_0_1` and `forward_1_1` are the macros of src/v8h_function.h on this store. Text, Lifetime,
--   Copy, Append and Integers are about the functions, Macros about these four.
-- Socket: src/socket.cc over a record `Net` of the system calls. Send has the loop of
--   `_write_buffer`, Receive has `_read_buffer`, Address has the addresses and `accept`; Functions has
--   what JavaScript calls with addresses; Traffic has two connected sockets, whose ends call these two
--   in any order, as a step relation.
-- Reader: `readUntil`, `readSize` and `readToken` of coffee/core/socket.coffee, which call `_readBuffer`
--   each time that the descriptor is ready; `readToken` calls `partialFindBuffer` from the position that
--   the last search came to. The conditions are `has_size` and `search_token`, the argument of the
--   callback is a function of the condition's variable, and the number of times that the descriptor is
--   ready is an argument; `waiting` is the state before the callback is called. What the handler does
--   after that, when it stays registered, is left out. Until is about any condition, Size and Found
--   about these two, Occurs about occurrences of a token in a text.
-- Service: src/service.cc. The calls of `epoll_ctl` are kept in the state, the two JavaScript objects
--   from descriptors to callbacks are association lists, the callbacks and the answers of
--   `epoll_wait` are parameters. Loop has the calls of callbacks and the loop of
--   `run`. Keys is about the lists, Consistent and Reach about the registration, Run and Lifetime
--   about the loop.
-- Stdio: the streams of the C library, and the loop with which src/file.cc and src/system.cc read one
--   into a buffer. Whole is about the loop.
-- File: src/file.cc; Read is about `File::read`.
-- System: src/system.cc and `raise` of src/error.cc, over a record `Runtime` of what they use of V8 and
--   the C library; Require is about `require`.
-- Forward: the macros of src/v8h_function.h for any conversions of the arguments, a conversion being
--   what may keep memory until the call is over: Functions has those for C functions, Members those
--   for the members of a class.
-- Heap: the memory of the C library, as blocks under addresses that are never used twice.
-- Helper: src/v8h_helper.h: `SmartString` (`TO_PCHAR`), which makes a text in memory for a call, the
--   conversions that src/c.h uses, and the exceptions. SmartText and Throw are about these; Values has
--   the conversions of numbers, Properties what reads and sets the properties of an object.
-- Bindings: src/c.h, the class `C`, over a record `Library` of the C functions. Tidy, Arguments and
--   Calls are about the memory that a call leaves, Texts about calls with strings.
-- Objects: the pointers behind objects, and the `Buffer`s that are allocated: the constructor, on new
--   objects and on those that are there, `close`, members, and the destructor that the garbage collector
--   calls, as a step relation that lists the pointers that are overwritten. Pointers has the lists, Lost
--   the pointers that are in no field any more, Owned who frees what.
-- Start: src/v8h.cc, over a record `Machine` of the C library and V8. Paths is about `main`; Setup is its
--   middle part in detail, with the classes and the globals over a `Realm`. Shown has the properties of
--   the global object, Frame what the classes do to them, Begin, Given and Shared what the three parts
--   and the whole leave there.
-- Internals: the internal fields of objects of `Buffer` and `Service`, with the class that each pointer
--   really belongs to; Typed is about these.
-- Exports: the functions that `create` of the classes registers for JavaScript, by `V8H_IMPLEMENT` of
--   src/v8h.h; Table is about their names.
-- Realm: what is used of V8's objects and properties, as an interface with laws.
-- Classes: `create`, `new_instance` and `global`, which macros of src/v8h.h and src/v8h_import.h make for
--   each class, with their static variables. Init has `init` of `System` and `C`, Once is about any
--   sequence of these calls, Lookup about what JavaScript finds under the names.
-- The modules named Tests run the definitions on concrete data and apply the theorems there.
--
-- Rounds. The loop of `prepare` gets 64: it triples a capacity above 0, and 2 ^ 64 is above any
-- `size_t`. The loop of `_write_buffer` gets one more than there are bytes, since `send` takes one at
-- least. The loop that reads a stream gets two more than the buffer has room for bytes. The loop of
-- `run` gets a list of answers of `epoll_wait`. The rest is structural recursion.
--
-- Assumed, each as a hypothesis of the theorems that need it: what POSIX says of `send`
-- (`Send.IsStream`), of `recv` (`Receive.ReceivesWithin`) and of a connection (`Traffic.IsWire`), what
-- the C standard says of `fread` without an error (`Stdio.IsReliable`), that V8 stores no more bytes
-- than `Utf8Length` tells (`Text.StoresUtf8`), and exactly as many (`SmartText.WritesUtf8`), that a
-- property has the value it was set to and a new function calls what it was made of (`Realm.IsRealm`),
-- that the properties of the global object are those that are set on it (`Shown.IsGlobal`),
-- and what the callbacks of a service keep (`Run.Serves`).
--
-- Not modelled: handles of V8 and when it collects an object, the persistent symbols, the macros of
-- src/v8h.h and src/v8h_import.h that nothing uses, a failing `malloc` or `epoll_ctl`, pointers into the
-- middle of a block that `malloc` has returned, the closing of streams, and the JavaScript but for
-- what Reader has.
pub mod Base
pub mod Algorithm
pub mod Buffer
pub mod Engine
pub mod BufferObject
pub mod Socket
pub mod Service
pub mod Stdio
pub mod File
pub mod System
pub mod Exports
pub mod Heap
pub mod Forward
pub mod Helper
pub mod Bindings
pub mod Start
pub mod Objects
pub mod Realm
pub mod Classes
pub mod Internals
pub mod Reader
