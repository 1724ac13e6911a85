-- ===== src/Lib.antt =====
-- Verification of cpp_onion, a generator of Tor v3 vanity onion addresses.
--
-- The program compiles the prefixes of the command line to bit patterns, lets an engine search for
-- keys whose encoding begins with such bits, checks every reported candidate again and writes the
-- key files that Tor reads. The engines push candidates to one queue; the main thread pops them,
-- verifies them and writes them.
--
-- The parts and their files:
--   * Core.Base32: src/core/base32.hpp and src/core/base32.cpp, the codec with its 32-bit
--     accumulator. A string is the list of its character codes.
--   * Core.Matcher: src/core/matcher.hpp and src/core/matcher.cpp, `compile_prefix` and `matches`.
--   * Core.OnionAddress: src/core/onion_address.hpp and src/core/onion_address.cpp.
--   * Crypto.Sha3: src/crypto/sha3.hpp and src/crypto/sha3.cpp, the permutation and the buffer.
--   * Crypto.Field: src/crypto/fe25519.hpp and src/crypto/fe25519.cpp, five limbs of 51 bits.
--     `unsigned __int128` wraps around at 2^128 and `std::uint64_t` at 2^64, both written out.
--   * Crypto.Point: src/crypto/ge25519.hpp and src/crypto/ge25519.cpp, extended coordinates.
--   * Crypto.Incremental: src/crypto/incremental.hpp and src/crypto/incremental.cpp.
--   * Crypto.Keys: src/crypto/keys.hpp and src/crypto/keys.cpp. libsodium is the parameter
--     `Sodium`; `IsSodium` says what its documentation promises.
--   * Engine: src/engine/engine.hpp, the candidates, the counters and the queue; Engine.Naive and
--     Engine.Incremental: the workers of src/engine/cpu/naive_engine.cpp and
--     src/engine/cpu/incremental_engine.cpp.
--   * Cuda: src/engine/cuda. Cuda.Device is what the kernels use of a field; Cuda.Field32 and
--     Cuda.Field51 are the fields of device_field32.cuh and device_field.cuh, Cuda.Bridge the
--     conversions of device_field_select.cuh, Cuda.Kernel is search_kernel.cu, Cuda.Xval
--     xval_kernel.cu, and Cuda.Engine cuda_engine.cu. What CUDA answers, the order of the threads
--     and the polls are functions of the number of the call, in the record `Runtime`.
--   * Avx2: one of the four lanes of the AVX2 code. Avx2.Lane is the arithmetic of
--     src/crypto/fe25519x4.cpp, Avx2.Store its loading and storing, and Avx2.Point its inversion and
--     src/crypto/ge25519x4.cpp. An intrinsic acts on every lane alike.
--   * Io.Verifier: src/io/verifier.hpp and src/io/verifier.cpp.
--   * Io.KeyWriter: src/io/tor_key_writer.hpp and src/io/tor_key_writer.cpp. The calls of the
--     operating system are the parameter `Os`; `IsOs` says what they do to the files.
--   * Cli: src/cli/main.cpp, the patterns, the choice of an engine and the loop over the results.
--   * Base: what all of them share. Each Tests module holds runs at concrete inputs.
--
-- Loops over arrays are recursions on lists and counters. `write_file_0600` recurses on the bytes,
-- of which a round skips those that are written. A worker reads the answers of `stop_requested()`
-- from a list, past whose end it stays true; the epochs of Engine.Incremental run on fuel, and more
-- fuel than answers is enough, since every epoch has at least one answer before it. With a batch of
-- 0, by which the source divides, they have no result. The main loop reads what happens between its
-- rounds from a list in the same way.
--
-- `CudaEngine::run` runs on fuel as well: every round polls, so more fuel than polls before the stop
-- is enough. The counter of hits is an `int`, that is a word of 32 bits with a sign; a write to a
-- negative slot, which the kernel does not exclude, is taken to change nothing.
--
-- Not modelled: threads, locks and atomics, each guarded call being one step; the threads of a
-- kernel run one after another; what is enqueued on a stream takes effect at once; the abort when
-- `sodium_init` fails; the wiping of local buffers and destructors; option parsing, printing, timing
-- and the benchmark; the AVX2 stepper and its worker; the build, the tests and the tools.
-- That the formulas of Crypto.Point are the group law of the curve, and that the prime is prime,
-- is not proved: a theorem that needs it has it as a hypothesis.
pub mod Base
pub mod Core
pub mod Crypto
pub mod Engine
pub mod Io
pub mod Cli
pub mod Cuda
pub mod Avx2
