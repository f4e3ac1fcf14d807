-- ===== src/Lib.antt =====
-- hsa-snoop watches the queues of AMD GPUs from outside: it reads the ring buffers of another
-- process's queues, decodes the packets there, and reports each packet when the GPU has consumed it.
--
-- The parts of the program and the files that model them:
--   Sdma        src/sdma.h, src/sdma.cpp: versions, headers and lengths of SDMA packets, the sizes of
--               linear copies, names. Sdma/Defs has the constants and header fields, Sdma/Length
--               `PacketLenDwords`, Sdma/Names the name tables, Sdma/Copy the copies,
--               Sdma/Topology `DetectVersion`.
--   Aql         src/aql.h, src/aql.cpp: the packet types and the 64-byte dispatch packet.
--   Model       src/model.h: the records that the parts hand to one another.
--   ProcMem     src/proc_mem.cpp: reads of a process's memory (Reads), the cached descriptor of
--               /proc/<pid>/mem (FdCache), the memory map (Vma), and the scan of an argument block
--               for pointers (Footprint; Credit has what it adds up to).
--   Ksym        src/ksym.cpp: the names of kernels. Reader finds ELF images, Image walks one, Symbols
--               has the two caches, Resolve the resolver.
--   Parser      src/parser.cpp, `RingParser`. State is a queue's state; Slot decodes an AQL packet,
--               PollAql is `PollQueue`; Ring reads SDMA dwords, PollSdma is `PollSdmaQueue`; Rounds is
--               the body of `Run`, RoundsApart how its queues bear on one another. Order, Step,
--               Accounting, Occurs, Own, SdmaOrder, SdmaRetire and SdmaPoll carry the invariants;
--               History, SdmaHistory, Eviction and RingReads have what follows from them.
--   DispatchLog src/dispatch_log.cpp: Escape has the JSON strings and a reader for them, Lines the
--               line of each event, Printable what characters get into it.
--   TraceWriter src/trace_writer.cpp: Pb writes protobuf messages, Wire reads them; Events sorts the
--               begins and ends of slices, Perfetto writes them for AQL and SDMA packets; Marks is a
--               reader of traces, EventMarks and Slices say what it finds. Tracks writes the tracks
--               and the AIS events. Json is the other format, with the numbers of Numbers, Writer
--               the class.
--   Discovery   src/discovery.cpp: Reads cuts what a pipe gives into lines, Kprobe and Uprobe make
--               queues of the lines of each mode, Fields reads their fields, Files finds what is
--               probed. Lines, Spin, Queues and RoundTrip, with Printed, say which lines are
--               handled and which queues are reported.
--   Monitors    src/ais_monitor.cpp and src/xnack_monitor.cpp: Ais and Xnack read the lines of the
--               two monitors, Resolve and Pcie find and classify the device of a transfer, Devices
--               says how long an answer is kept.
--   Exporter    src/prometheus_exporter.cpp: Metrics has the calls of the metrics library, Queues,
--               Packets and Storage what each record makes of them, Rates the launch rates,
--               Platform the type of a GPU. Counts, with Totals, says what the counters add up to,
--               Window what a rate counts.
--   Main        src/main.cpp: Options is the command line, Session takes new queues, Sinks routes
--               records, Finish writes the files. Routing, with Gains and Lookups, says where
--               records end, Written follows a queue from its ring to its trace, Checks says which
--               options the program goes on with.
--   Os          what is asked of the operating system and of the C++ runtime.
--   Prelude     Boolean tests, lists, machine words and maps that the parts share.
--   Tests       the theorems applied to concrete queues, packets and processes.
--
-- How they interact: `poll_queue` and `poll_sdma_queue` take the state of one queue and the answers
-- of the system during that poll, and return the new state beside the records that the sink is
-- called with, in order. They read through ProcMem, decode with Aql and Sdma, and name kernels with
-- Ksym, whose resolver is a field of the queue's state. A history of a queue is a list of polls, each
-- with its own answers of the system and its own time. The queues that Discovery reports go through
-- `on_queue` of Main/Session, which registers them with the exporter or a writer and hands them to the
-- parser; the records of the parser and of the monitors go through the sinks of Main/Sinks, whose calls
-- of the other parts are listed as outputs. `handle_all` runs a session over such calls in any order.
--
-- Numbers: addresses, ids and counters are natural numbers; sums, differences and products of the
-- source's uint64_t are written with their wrap-around (`add64`, `sub64`, `mul64`). The theorems on
-- polls ask that a write pointer is below 2^63 and a ring size below 2^32, its type. A time is a whole
-- number of nanoseconds, where the source has seconds as a double. A text is its bytes. The
-- std::stable_sort of the source is an insertion sort, which keeps the order of equal events. A
-- std::map is a list of entries in ascending order of the keys, an unordered_map a list of entries
-- with one entry for each key.
--
-- Loops: the decoding loops are given as many rounds as there are entries between `next_id` and the
-- write pointer, since a round either ends the loop or moves `next_id` on. `PeekStr` has 8 rounds of
-- 64 characters, which are its limit of 512, and `Varint` 10 rounds, which hold 70 bits. The
-- loop of the blocking readers of src/discovery.cpp, which need not end, is one round (`round`) and any
-- number of them. The walk up sysfs has its 8 levels, and a printed number at most 20 decimal digits.
-- All other loops run over a list or a count that the source fixes beforehand.
--
-- The system calls are parameters (Os.antt): a read gives the bytes that it transfers or nothing
-- for its error return, and the memory does not change within a poll. abi::__cxa_demangle is a
-- parameter as well. The answers are given by pid, for the process that has the pid at the time of
-- the call; that a descriptor of /proc/<pid>/mem that is kept open stays with the address space of
-- its open is the matter of ProcMem/FdCache.
--
-- The C library's numbers are written out (Prelude/Search): `strtoull` and `atoi` skip blanks, read
-- digits and clamp to their types. The kprobe lines' pid is what `atoi` gives as 32 bits. A stream
-- prints a double of microseconds with six significant digits (TraceWriter/Numbers), rounded from
-- the exact value. sscanf, std::hash, realpath and the files of sysfs and /proc are parameters, and
-- so are the clocks.
--
-- Not modelled: threads, locks and signals (each call is taken to run on its own), output to stderr
-- and the debugging dumps; the scripts for bpftrace, the writes to tracefs, and starting and stopping
-- subprocesses of src/discovery.cpp and of the monitors, except for the wait of kfd-uprobe mode for its
-- probes; the texts of the metrics, the HTTP endpoint and the probe of the ROCm version of
-- src/prometheus_exporter.cpp, whose library prometheus-cpp only appears as a list of calls; and the
-- child process, its privileges and the wait of the main thread of src/main.cpp.

pub mod Prelude
pub mod Os
pub mod Sdma
pub mod Aql
pub mod Model
pub mod ProcMem
pub mod Ksym
pub mod Discovery
pub mod Monitors
pub mod Parser
pub mod DispatchLog
pub mod TraceWriter
pub mod Exporter
pub mod Main
pub mod Tests
