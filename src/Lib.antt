-- ===== src/Lib.antt =====
-- PVC-RotSymEnc-1: the wrapper around PVC-AEAD-0 Candidate A1, its command line, and the
-- research tools that stand around it, as definitions that run and theorems about them.
--
-- The parts of the program and the files that model them (paths from the repository's root):
-- - analysis/nonce_management/nonce_management.cpp, the persistent 192-bit nonce counter and the
--   reuse detector. Nonce/Counter.antt has the state, its file image (`encode_state`,
--   `decode_state`) and `increment`. Nonce/Store.antt has `load_state`, `persist_state` and
--   `allocate`, with the hook called at the same points. A `FileDescriptor` has no state of its
--   own in the model; the two paths are the two fields of `Files`. The kernel's answers to one
--   call are the record `Kernel`, so that every failure of a system call and every short or
--   interrupted transfer is an argument. A call ends in `returned`, `threw` or `exited` (a hook
--   that ends the process). Nonce/Detector.antt has `NonceReuseDetector`.
-- - include/pvcrotsymenc1/symmetric_encryption.hpp and src/symmetric_encryption.cpp:
--   Symmetric.antt. `TagSize` is the underlying byte of the enumeration. The C++ function `open`
--   is called `open_sealed` here.
-- - app/main.cpp: Cli/Hex.antt has the hexadecimal texts, Cli/Command.antt the two commands,
--   from the list of arguments to what is written and the exit code. A text is the list of its
--   bytes.
-- - fuzz/fuzz_input.hpp, fuzz/seal_equivalence.cpp and fuzz/open_equivalence.cpp:
--   Fuzz/Reader.antt has the input reader, Fuzz.antt the two harnesses, which end in a
--   `Verdict`; a span used out of its range ends in `undefined`. The independent implementation
--   is a second parameter.
-- - analysis/nonce_misuse_campaign.cpp: Nonce/Campaign.antt has the generator and the byte
--   patterns, Nonce/Store/Crash.antt the hook that ends the process, Campaign/World.antt the
--   state of a test: the files by path, and the number of calls so far, which picks the kernel's
--   answers to the next one. Campaign/Runs.antt has the tests over the files,
--   Campaign/Misuse.antt the reuse of a nonce, Campaign/Collisions.antt the counts of the
--   simulation; a `std::set` is the list of its elements there. What `fork` and `waitpid` answer
--   is an argument.
-- - analysis/fault_injection_campaign.cpp: Fault/Random.antt has the deterministic data,
--   Fault/Bits.antt flips of one bit and distances, Fault/Comparison.antt the faulted
--   comparison, Fault/Stream.antt the faulted keystream, Fault/Statistics.antt,
--   Fault/Regions.antt and Fault/Diagnosis.antt the counts, Fault/Cases.antt the sealed cases.
--   Fault/TagFaults.antt and its children Skips and Lengths have the faults in tags,
--   Fault/Released.antt the releases of plaintext. Fault/State.antt has the faults in the state of
--   the block function, Fault/State/Trace.antt the mirror of its finalization,
--   Fault/Localization.antt the localization of a fault. Fault/Campaigns.antt and its child
--   Diagnose have the loops over all state bits, Fault/Families.antt the dependency families,
--   Fault/Runs.antt the modes and the order of the tests. The functions of the block function,
--   of the framing and of the finalization are the parameters `Cipher`, `Pvc1` and `Frames`; what
--   a test prints is the value it returns. The counters of `DistanceStats`, of the geometry and of
--   the diagnosis wrap around at 64 bits; the others, which count a few thousand faults at most,
--   are unbounded.
-- Base.antt passes on what they share: tests, lists, the exclusive or of words, exceptions as
-- values.
--
-- Code outside these files is a parameter. The vendored PVC-AEAD-0 A1 is the record `Aead` of
-- two functions; `Documented` in Symmetric/Profile.antt states what SPECIFICATION.md says of
-- them, over a keystream and a MAC of which only the lengths and the range of the bytes are
-- assumed. Symmetric/Toy.antt is such an A1. `DocumentedState` and
-- `DocumentedOutputs` state the layout of the state, the size of the outputs and what they are
-- outputs of; Fault/State/Toy.antt satisfies them. The file system is the kernel of Nonce/Store: a
-- rename is atomic, and a call under the lock runs alone. What is lost at a power failure
-- between a rename and the sync of the directory is not modelled.
--
-- Bounds: a byte is a number below 256, and every theorem that needs it says so with `AllBytes`.
-- The loops are structural recursion on the arrays, on the count of bytes or on the list of
-- transfers; there is no fuel.
--
-- Not modelled: in analysis/nonce_misuse_campaign.cpp the test with several processes and the
-- temporary directory; in analysis/fault_injection_campaign.cpp the printing,
-- with the check of `print_distance` that something was counted; all of
-- analysis/streamframe_domain_audit.cpp; the timing and performance programs (clocks and
-- floating-point statistics), the tests (fixed vectors) and the harnesses under
-- verification/cbmc, which another checker runs.
pub mod Base
pub mod Nonce
pub mod Symmetric
pub mod Cli
pub mod Fuzz
pub mod Fault
