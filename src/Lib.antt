-- ===== src/Lib.antt =====
-- FSRF: the host daemon that gives FPGA applications files mapped into virtual memory.
--
-- Clients (sw/daemon/aos.hpp) send requests over a socket. The daemon (sw/daemon/aos_daemon.hpp)
-- reads a request, calls the `aos_fio` of its application (sw/daemon/aos_fio.hpp) or accesses a
-- register (sw/daemon/aos_fpga.hpp), and responds. An `aos_fio` maps files, allocates device pages,
-- moves data by commands to the transfer engine, answers the page faults of its application, and
-- keeps the hardware's TLB filled through a mirror of it.
--
--   Host: the AWS library, the files and the trace of what was done to them. Both libraries are
--     parameters. Host.Memory says what a trace means for the data of the device and of the files.
--   Fpga: register access (aos_fpga.hpp).
--   Prefetch: `AddrPrefetchHelper`, and Tlb: `CyTLB` (both aos_fio.hpp).
--   Fio: the state of `aos_fio`. Fio.Transfer: `dma_wrapper`, `file_to_device`, `device_to_file`.
--   Fio.Sync: `msync`, `tlb_addr`. Fio.Alloc: `phys_alloc_unaligned`, `phys_evict`. Fio.Contig:
--     `get_virt_contig`. Fio.Populate: `tlb_populate`, `populate_unaligned`, `populate_aligned`.
--   Fio.Fault: `fault_handler`. Fio.Control: the constructor, `set_mode`, `start`, `stop`,
--     `file_open`, `file_close`. Fio.Map: `mmap`, `munmap`.
--   Protocol: commands and packets (aos.hpp). Daemon: the state of `aos_host`, Daemon.Handlers: its
--     handlers, Daemon.Sockets: connections, Daemon.Loop: `listen_loop` (aos_daemon.hpp).
--   Client: the calls of `aos_client`, what they send and how much they read (aos.hpp).
--   Setup: the settings of the host applications and Setup.Polling: `finish_runs`, which waits for
--     their accelerators (sw/app/utils.hpp).
--   Drivers: the calls of the main programs of sw/app, Drivers.Programs (and Hls): one function for
--     each of them, Drivers.Sessions: what an application holds between its calls.
--   Multi: sw/app/multi.cpp, which keeps four accelerators busy.
--   Sha: `sha256_transform` and `sha256_fpga` (hw/design/hls_sha/src); Sha.Reference: SHA-256 as the
--     standard writes it.
--   PageRank: `pgrnk` and its processes (hw/design/hls_pgrnk/src/pagerank.cpp); PageRank.Reference:
--     the ranks by random access.
--   Graphs: `main` of sw/app/inputs/matrix2graph.cpp, which writes the files that PageRank reads.
--   Hll: HyperLogLog up to the sum of its buckets (hw/design/hls_hll/src).
--   Triangles: `triangle` (hw/design/hls_tri/src/triangle.cpp); Triangles.Reference: the same count
--     over pairs of words.
--   Generator: `main` of sw/app/inputs/graphgen.cpp, which writes the files that Triangles reads.
--   CpuRng: `permute` and the loop of sw/app/cpu_rng.cpp.
--   Examples: the theorems used at concrete states.
--
-- A method takes the state and returns an outcome: a result with the next state, an exit, a failed
-- assertion, undefined behaviour, an exception, or `running` where a loop was given too few rounds.
-- Loops over a range make as many rounds as the range has elements. The loop that polls the count
-- of pages is bounded by `patience`; a device that serves as documented has reached the count by
-- then. The engine is asynchronous: a command changes no page before a read of the count shows that
-- it was performed. A word written to the device memory by itself changes the page that it lies in, so
-- the TLB's tables and the pages of data share one memory. The loops of `phys_evict` have rounds for
-- every page of the ring. Locks are not modelled: the methods and the rounds of the fault handler are
-- single runs. The source holds both locks in a round of the fault handler and in `msync`, but none
-- between the two parts of `munmap` and of `mmap`; a theorem about these is about runs
-- in which no other thread comes between. Values of `uint64_t` are numbers below 2^64, and sums that can
-- leave that range wrap.
--
-- An `ap_uint<w>` of an accelerator is the number below 2^w that the synthesis language defines, with
-- its ranges and concatenations as fields of that number; a stream is the list of the values in it,
-- without a bound on its length, so a result is that of any schedule in which the processes finish; the
-- theorem on PageRank with surplus edges asks that the streams' depth holds them.
-- `finish_runs` and the loop of multi.cpp are given a number of rounds, and `none` stands for a run
-- that goes on; under the theorems' hypotheses on the registers the rounds named there are enough.
--
-- Not modelled: the set-up of processes, printing and counters of the daemon, timing, sleeping and
-- printing in sw/app, the statistics that the generator prints, the floating-point estimate of
-- HyperLogLog, the optical flow accelerator, which is fixed-point arithmetic of a vendor library,
-- and the copies of other libraries in hw/design (axi_utils, bit_utils, xf_*).
pub mod Common
pub mod Host
pub mod Fpga
pub mod Prefetch
pub mod Tlb
pub mod Drivers
pub mod Fio
pub mod Sha
pub mod Multi
pub mod PageRank
pub mod Graphs
pub mod Hll
pub mod Triangles
pub mod Generator
pub mod Protocol
pub mod Daemon
pub mod Client
pub mod CpuRng
pub mod Setup
pub mod Examples
