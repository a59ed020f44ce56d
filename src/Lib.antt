-- ===== src/Lib.antt =====
-- A model of the os-emulation workspace: the transform daemon and its wire protocol, guest memories and
-- page translation, system call tables, host interfaces, the rewriting and signing of executables,
-- the redirects of an ABI, and the code generators for the operations of the OS layer.
--
-- Parts and files
--   Protocol    crates/daemon/os-daemon-protocol/src/lib.rs. Fields holds the codecs of strings
--               (`encode_string`, `decode_string`, options, vectors), Frame the frames and their
--               transport (`encode_frame`, `decode_frame`, `read_frame`, `write_frame`), Message the
--               requests and responses. Byte buffers are lists of numbers, a `String` is a list of bytes
--               that passes the UTF-8 decoder of Base/Strings, and an error is a value of `Result`.
--   Transform   crates/daemon/os-transform-core/src/lib.rs: the contract of backends, a record of
--               functions over any type of backends. Paths are texts.
--   Daemon      crates/daemon/os-daemon/src/lib.rs. The registry (Daemon/Registry) is an association
--               list for the `HashMap`. A handler takes the daemon and returns it with the answer; `none`
--               is a panic. A client is what it sends, and the reply is what is written back. The daemon
--               decodes with Protocol, calls backends through Transform and encodes the answer.
--               Daemon/Client is the C client that crates/daemon/os-daemon-shim/src/execve.rs emits, over
--               sockets that are parameters; its strings are bytes without the zero at their end.
--   Page        crates/page/os-page/src/lib.rs and src/backends.rs: `LegacyOnDemand` (OnDemand),
--               `LinearHost` (Linear) and `SharedPageTable` (SharedTable). A memory is a value, and a
--               write returns the memory that it leaves. A page table reads its entries through the
--               memory's `read`.
--   Emit        crates/emit/os-syscall-emit/src/lib.rs and crates/emit/os-linux-wasi/src/lib.rs
--               (LinuxToWasi). The caller's register map is an argument. What a dispatcher does with
--               an entry, by the comments on its fields, is stated in Dispatching, since the
--               dispatchers are other packages.
--   HostApi     crates/runtime/os-host-api/src: manifest.rs (Manifest) and the hosts (Hosts). A host is a
--               value of any type with a record of its functions, and a wrapping host turns one record
--               into another. The tunnel is a parameter.
--   Target      crates/target/os-target-core/src/lib.rs (Ops, and Reference for what its comments say
--               the operations mean), crates/target/os-target-native/src (Helpers, Riscv64, Aarch64,
--               X86) and crates/target/os-target-wax/src/lib.rs (Wax). A backend is its configuration and
--               the list of calls that it made of the instruction writer. Host is the machine that the
--               native code runs on: registers, a stack of 64-bit cells and the guest memory.
--   Codesign    crates/daemon/os-codesign-macho/src/lib.rs: the property lists (Plist), the report of the
--               tool (Report) and the calls (Signing), over a machine on which `codesign` and the writes of
--               files are parameters. Constrains reads a library constraint as its consumer does.
--   Rewrite     crates/daemon/os-rewrite-elf/src/lib.rs (Elf) and crates/daemon/os-rewrite-macho/src/lib.rs
--               (MachO). A file is a list of bytes. Elf/Layout and MachO/Commands read a file as a dynamic
--               linker and a loader do.
--   Abi         crates/abi/os-abi-spec/src/model.rs and convention.rs (Model) and
--               crates/abi/os-abi-stubs/src/lib.rs (Stubs). The registry of generated stubs is a parameter;
--               manifests are those of HostApi.
--   Base        Booleans, lists, results, texts, machine words and bit operations that the parts share.
--
-- Numbers are natural numbers. Additions, multiplications and shifts of machine words are written with
-- their wrap-around, as in a release build. Loops over lists and counters are structural recursion. The
-- two `while` loops of `rewrite_elf` take the length of the file and one as their fuel, which is enough
-- since each round leaves an entry of the file behind.
--
-- Parameters. `System` of Codesign/Signing has the tool `codesign` and the writes of files, as any
-- functions on the state of a machine. `Net` of Daemon/Client has the sockets of the client; `Reaches`
-- of Daemon/ClientLaws states that they connect and carry bytes to the daemon and back. Backends of the
-- daemon are any functions, and where a theorem needs it they keep their id over `obtain`. The
-- runtime's helpers that native code calls are any function on the machine's state; `ShimLaws`
-- of Target/Refines states what the calling convention and their names promise, and Target/Runtime has
-- a runtime that keeps it. Instructions mean what the manuals of the processors and the WebAssembly
-- standard say, for the few that are emitted; the encoders that write them as bytes are other packages.
--
-- Bounds. The path of a socket has fewer than 108 bytes, as on Linux. A payload of a frame is shorter
-- than 2^32 bytes, a host memory and a file are shorter than 2^63, and a stack of the machine has fewer
-- than 2^60 cells.
--
-- Not modelled: binding sockets, the interposed system calls of the shims other than `execve`, the
-- generation of Rust, C and JavaScript text, and the context traits of crates/runtime/os-ctx and
-- os-async.
pub mod Base
pub mod Protocol
pub mod Transform
pub mod Daemon
pub mod Page
pub mod Target
pub mod Emit
pub mod HostApi
pub mod Codesign
pub mod Rewrite
pub mod Abi
