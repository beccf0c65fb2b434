-- ===== src/Lib.antt =====
-- RNode Linux: a daemon that speaks the RNode protocol to a client over TCP, in KISS frames, and drives
-- an SX126x LoRa modem over SPI. This library models the daemon's C code.
--
-- The program's parts, and where they are modelled:
--   Kiss        src/kiss.c: kiss_encode escapes an answer into a frame and sends it, kiss_decode takes
--               the received bytes and calls rnode_from_channel at each frame's end.
--   Tcp         src/tcp.c: tcp_send, and in Read tcp_read, a turn of the main loop.
--   Rnode       src/rnode.c. Dispatch is rnode_from_channel, Settings and Answers are its handlers, Start
--               is rnode_start, Air is the split and reassembly of packets, Sha256 the device hash, Report
--               what is sent unasked. Link is about two daemons, Padding and Schedule about the hash.
--   Queue       src/queue.c. Items is the queue and the medium's state, Worker a round of queue_worker.
--               Linked is the linked list, cell by cell, and Threads the steps of queue_push and send_packet
--               on it; Interleave relates the two views.
--   Csma        src/csma.c. Limits has its constants, Airtime is the airtime bins and the contention window,
--               Rssi the noise floor, interference and channel use, Params what follows from the
--               modulation, Queries what other files read.
--   Radio       sx126x/sx126x.c. Chip has its constants, Spi is a transfer, Command the commands of
--               one transfer, Begin waiting and bringing up, Settings and Packet the calls of the
--               protocol.
--   Irq         irq_worker of sx126x/sx126x.c with the callbacks that src/main.c registers.
--   System      the whole daemon. Sound is the invariant of its variables, Answers to Interrupt are what
--               keeps it, Commands and Stream the client's bytes, Turn tcp_read, Steps the threads' steps.
--   Startup     src/main.c up to its loop, config_load, tcp_init, queue_init and the sx126x_init_ functions
--               of sx126x/sx126x.c, on a small state of their own: the calls made so far, and a Host that
--               answers them.
--
-- The state. State.antt has a record for the static variables of each file, under their names in the
-- code, and the record Daemon of them all with the history of the calls that devices and the network can
-- see. A function of the code is an action on it (State/Monad.antt), which returns a value and the next
-- daemon, or faults where the code would access a buffer out of its bounds or shift by too much. The order
-- of the calls, of the writes to the variables and of the early returns is the code's.
--
-- The threads. System/Steps.antt has the main loop, irq_worker and queue_worker as a relation whose steps
-- are turns of their loops, in any order. A turn is one step, so that what the mutexes guard is never
-- seen half done. Queue/Threads.antt is finer for what the main loop and queue_worker share: there
-- a stretch of queue_push or send_packet under the mutex is one step, and so is each between; the cells
-- that malloc gives hold any content. For the rest of the state, a turn of one thread in the midst of
-- another's is not modelled.
--
-- What stands outside. Platform.antt is a record of what the code takes from the system: the arithmetic
-- of float and double, the clock, random numbers, the BUSY line, the answers of the SPI device, of the
-- interrupt line and of the sockets. An answer is any function of the history, so each theorem holds for
-- all devices unless it says otherwise. Log messages are left out. A GPIO line that the configuration can
-- leave out is taken as present. malloc is taken to succeed.
--
-- Numbers. Machine integers are natural numbers with the wrap-around written out where a value can reach
-- it; int8_t and int32_t are integers. A buffer is a list of its length.
--
-- Loops and bounds. wait_on_busy's loop runs on its own count of 10000 rounds, which is the code's
-- timeout. wait_on_busy calls sx126x_begin, and that waits again: Radio/Begin.antt takes each over the
-- other as a parameter and ties them once, since the inner wait finds `recovering` set and recovers no
-- further. The other loops run over lists.
--
-- Not modelled: the parsing of the configuration, which the cyaml library does by the tables of
-- src/config.c; the endless loops around the turns; the hex dump of src/util.c, which only prints;
-- sx126x_packet_signal and sx126x_available, which nothing calls; log messages; and the failure of
-- gpiod_edge_event_buffer_new, after which irq_worker ends.
--
-- Base.antt passes library names on and has the lists, integers and bytes that the parts share.
-- State/Keeps.antt and Radio/Moves.antt have the rules for what an action keeps and how it changes the
-- part of the daemon that waiting leaves alone. Tests.antt has a daemon on which the theorems are
-- applied, its children apply them.
pub mod Base
pub mod Platform
pub mod State
pub mod Tcp
pub mod Kiss
pub mod Rnode
pub mod Radio
pub mod Csma
pub mod Queue
pub mod Irq
pub mod System
pub mod Startup
pub mod Tests
