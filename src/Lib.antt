-- ===== src/Lib.antt =====
-- cstone is a C library for embedded systems: queues between interrupt handlers and tasks,
-- checksums, a console, logs, properties and small utilities. This library models its C code, part
-- by part, with one module for each part, and proves what makes each part correct.
--
-- A machine word is a number below 2 ^ w, and every cast or wrap-around of the C code is written
-- out. `size_t` has 32 bits. Arrays and strings are lists. What a function changes through a
-- pointer is part of its result. A loop whose rounds do not follow a list takes fuel, the number
-- of rounds that it may still start; the theorems say how much is enough.
--
-- Prelude: the numbers, lists and tests that the parts share. Prelude/Bits has the laws of
-- exclusive or on which the checksums stand, Prelude/Lists those of `take`, `drop`, `set` and
-- `get_or`, Prelude/Tests those of the Boolean tests and Prelude/Words the casts.
--
-- Crc: src/util/crc8.c, src/util/crc16.c and src/util/crc32.c, one module for each.
-- `update_serial` is the bit-serial reference of `crcN_update_serial`, and `update_small` and
-- `update` are the steps of the table forms. Crc/Lfsr has what the three have in common: the shift
-- register as a linear map.
--
-- IsrQueue: src/isr_queue.c with include/cstone/isr_queue.h. The record `IsrQueue` has the fields
-- of the structure, and each `isr_queue_` function is a definition of the same name without the
-- prefix. One call runs undisturbed; interleavings are not modelled. IsrQueue/Inv has the
-- invariant and the list of bytes held, `contents`, and IsrQueue/Fifo the promise in terms of that
-- list. `push` and `pop` end within three rounds, so fuel 3 is enough, but for the calls of which
-- IsrQueue/Push says that they never end. The pointers of `isr_queue_alloc` are an option:
-- `memory` is what the allocator returned.
--
-- Search: src/util/search.c. `Sorted` in Search/Exact is what the searches ask for, an ascending
-- array and a comparison that returns signed differences; its `compare_near` is the callback of
-- the caller. The loop needs one round more than there are items. Its variable `high` stands one
-- higher, as `above`.
--
-- Strings: src/util/bsd_string.c in Strings/Bsd and src/util/string_ops.c in Strings/Ops. A string
-- that is read is the list of the characters before its terminator; memory that is written is a
-- list of all its bytes. `str_print_wrapped` takes fuel for its lines, and Strings/Ops/Wrap says
-- when it is enough. `str_split` is not modelled.
--
-- Random: src/util/random.c. The state of the generator is a number below 2 ^ 64. The rejection
-- loop takes fuel for its draws: no bound is known beforehand, so the theorem counts the draws
-- that were rejected. The search among the weights takes one round more than there are weights.
--
-- IntMath: src/util/intmath.c, the functions on powers of two, logarithms and the square root.
-- `clz` is the version that the file has for compilers without one of their own. The loop of
-- `ilog_b` needs one round more than the value.
--
-- Glob: src/util/glob.c. `glob_step` is one round of the loop of `glob_match`, with the rest of
-- the pattern and of the string for the two positions and for those of the last star. A round that
-- moves a position behind a terminator ends the model with the outcome `past_end`, and one that
-- meets a span whose loop does not end with `endless`. `rounds` in Glob/Ends is enough fuel for
-- the rounds, and `span_rounds` for a span that ends, as Glob/Spans shows. Glob/Ranges says what a
-- range is from its text alone, and Glob/Sound what a pattern describes. A set of characters is a
-- test, in place of the 256 bits of `CharSet`.
--
-- Dhash: src/util/dhash.c with include/util/dhash.h, and PrimeModulus:
-- include/util/prime_modulus.h. Dhash itself has the record `Dhash` of the structure `dhash`, with
-- the probe sequence and the search. Storage has the loop of `dh__insert_ex`, one round at a time,
-- Table the growth, `insert` and `remove`, Setup `init` and `free`, Usage the capacity and the
-- walks, and Keys the callbacks for keys that the code offers. Inv has the invariant `IsValid`,
-- which says where an entry lies on the probe sequence of its key and what is before it. Carried
-- is the item in hand while an insertion goes on. Adds and Removes say what an operation promises,
-- and Map and Growth say it of `lookup`. The hypotheses on the callbacks are the record `KeyLaws`,
-- and Keys/Laws shows that those for integers meet them. A table grows through the search of
-- Search in the list of primes. A key is `Usable` when no tombstone passes for it. The fuel of an
-- insertion is the number of rounds, and 32261 is enough, the largest number of buckets that a
-- count of probes can reach. The search has no fuel of its own: it stops at the largest count of
-- probes. `memory` and `allocates` stand for what is not in the code.
--
-- Mempool: src/util/mempool.c with include/util/mempool.h. A set is the list of its pools with the
-- memory, a function from an address to the word there. Inv has the invariant: `Chain` reads the
-- free elements of a pool off the links in the memory, and `ArePools` says where they lie. Alloc
-- and Free are about `alloc` and `free`, Init about a new pool, Order about the order of the pools
-- and Refs about counts of references. `Takes` and `Returns` say which list of free elements a
-- call changes. A loop over pools follows the list; the loop that links a new pool has fuel for
-- one round for each element.
--
-- PropFlags: src/prop_flags.c with the field macros of include/cstone/prop_id.h. Each function is
-- a definition of the same name, which returns the set next to its answer where the C function
-- changes it. Laws is about reading what was set and Init about new sets.
--
-- PropId: the tests on identifiers of src/prop_id.c. Match is about masks, field by field, and
-- Valid about identifiers that allow none. The loop of `prop_has_mask` has four rounds and a last
-- test, so fuel 5 is enough.
--
-- Not modelled: what only reads or writes devices, prints, or calls the FreeRTOS kernel; the C++
-- parts; the memory pools, the databases of logs and properties, messages and events.
pub mod Crc
pub mod Dhash
pub mod Glob
pub mod IntMath
pub mod IsrQueue
pub mod Mempool
pub mod Prelude
pub mod PrimeModulus
pub mod PropFlags
pub mod PropId
pub mod Random
pub mod Search
pub mod Strings
