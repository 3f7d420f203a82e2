-- ===== src/Lib.antt =====
-- The Go package hyperuuid: RFC 9562 UUIDs from a core that is compiled into it as Go.
--
-- The core, go/internal/core/core.go, is a WebAssembly module translated to Go: functions on a
-- linear memory, a stack pointer and one import, which draws random bytes. go/core.go keeps
-- instances of it and copies arguments into and results out of a scratch behind the module's own two
-- pages. go/uuidgen.go and go/inspect.go are the package's functions: they check arguments, call the
-- core through an instance and turn return codes into errors.
--
-- Files:
--   Prelude     library names, native lists, tests, the errors of go/errors.go
--   Bits, Word  what & | ^ do to numbers, and the fixed-width operations of the core
--   Memory      the linear memory and its loads and stores (load16 to store64)
--   Uuid        the 16 bytes, the fields RFC 9562 reads in them, SQL Server's order of comparison
--   Stream      the specification of the version 7 stream, on positions
--   Sha         SHA-1 as FIPS 180-4 describes it, apart from the code
--   Core        the core: Module (Module, New, fn0, memory_grow), Inspect (Xuuid_version, _variant,
--               _is_rfc, _v7_unix_millis, _v7_unix_millis_in, _get_timestamp), Sql
--               (Xuuid_v7_to_sql_order, _to_rfc_order), Stream (the reservation loops of
--               Xuuid_new_v7 and _new_v7_batch), V4 (Xuuid_new_v4), V7 (Xuuid_new_v7), V7.Batch
--               (Xuuid_new_v7_batch) and V5 (Xuuid_new_v5; in V5.Block the SHA-1 code fn6)
--   Instance    go/core.go: newInstanceWith, ensureScratch and the calls on an instance
--   Api         go/inspect.go (Inspect), the SQL Server order (Sql), NewV4, NewV7At and
--               NewV7AtTime (Generate), NewV7BatchAt, FillV7At and
--               FillV7BytesAt (Batch), NewV5 with newV5 and v5 of go/core.go (Name), single
--               calls and batches together (Mixed), the functions that read the clock (Now) and
--               NativeVersion (Version)
--   Pool        go/core_pool.go: acquire and release, and the interleavings of calls
--   Random      go/random.go (osSource, newSource) and go/random_aes.go (aesSource), and the primary
--               instance on the source that is picked
--   Tests       a concrete source, a sample UUID, and the theorems applied to them
--
-- A call takes the instance that it acquires and returns it. An instance between two calls is ready
-- (Instance.Ready): the stack pointer is at 65536, the word at 65560 holds the stream, the variant
-- table and SHA-1's initial value are in place and the scratch starts at 131072. Integers are natural
-- numbers with the wrap written out, and an int32 or int64 is its bit pattern; a time.Time that is returned is its
-- milliseconds, and one that is given its nanoseconds.
--
-- Parameters: a random source is a state and a function `fill`, of which theorems assume the contract
-- of `source` in go/random.go (Core.Module.IsSource). The package's own
-- sources stand on `io.ReadFull` (Random.IsReader), a clock in nanoseconds and a cipher whose
-- keystreams are bytes (Random.Rounds.IsCipher). The host is a 64-bit one.
--
-- Bounds: an address is the value of its int32, and a memory is total, since the accesses of these
-- calls lie in the frame, the data and the scratch of every instance. The reservation loop goes
-- round again only if the word changes between two reads, which no other code does under the lock,
-- so it is given one round of fuel. A batch draws 65536 bytes to a round at most and is given two
-- rounds more than it fills pages; it writes one UUID to a round. The SHA-1 loop is given a round
-- for each block; a name is at most 2^31 - 1 bytes long, so its addresses do not wrap. A round of
-- the AES stream's generation takes a byte at least. In Api.Batch and Random.Aes, and in
-- Core.V7.Batch, `none` is a panic.
--
-- Not modelled: the String methods and the text of NativeVersion, bounds-check panics of the memory,
-- and the tools that build the core.
pub mod Prelude
pub mod Bits
pub mod Word
pub mod Memory
pub mod Uuid
pub mod Stream
pub mod Core
pub mod Instance
pub mod Api
pub mod Random
pub mod Sha
pub mod Pool
pub mod Tests
