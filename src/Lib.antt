-- ===== src/Lib.antt =====
-- MinifilterMonitor: a kernel minifilter driver that records the operations of file systems, and a
-- console client that writes the records to a file.
--
-- The program. The driver (MiniMonFlt) registers callbacks with the Filter Manager. The pre-operation
-- callback takes a record from a bounded buffer and fills it; the post-operation callback completes it
-- and appends it to a list. One client at a time connects to the driver's port, drains the list by
-- messages and reads the driver's version. The client (MiniMonClient) loads the driver, attaches its
-- instances to the volumes, and runs two threads: the drainer fetches batches of records and pushes
-- them to a bounded queue, the writer pops them, renders each record as a line and writes it.
--
-- Which file models what:
--   Common                 numbers, lists and Booleans that the other files share
--   Protocol               inc/protocol.h: records, supplements, sizes, commands; Parameters has the
--                          views of a record's parameters, one for each operation
--   Driver/Status, State   the NTSTATUS values, the driver's variables, the IRQLs
--   Driver/Records         MiniMonFlt/src/records.cpp, config.cpp: the record buffer, call by call
--   Driver/Records/Threads the same with all threads interleaved, one interlocked step at a time;
--                          removals may overlap, since DisconnectNotify clears the list when the
--                          port is free again
--   Driver/Port            MiniMonFlt/src/port.cpp: connections and commands
--   Driver/Transaction     MiniMonFlt/src/transaction.cpp: sequence numbers and context references
--   Driver/Dispatch        MiniMonFlt/src/dispatch.cpp: the callbacks; Ownership joins them with the
--                          port into one step relation
--   Driver/Modules         MiniMonFlt/src/trace/modules.cpp: the modules of stack traces
--   Driver/Stack           MiniMonFlt/src/trace/capture.cpp: the stack trace of a record
--   Driver/Memory          MiniMonFlt/src/memory.cpp: which buffers may be read
--   Driver/Capture         MiniMonFlt/src/trace/supplement/: copies of buffers into payloads
--   Driver/Routing         MiniMonFlt/src/trace/supplement.cpp: which copy belongs to an operation
--   Driver/Entry           MiniMonFlt/src/driver.cpp, config.cpp: start, unload, instance setup
--   Client/Text, Format    MiniMonClient/src/text.h, trace/format.cpp: texts and lines
--   Client/Number          numbers as std::to_wstring and std::format print them
--   Client/Flags, Names    MiniMonClient/src/trace/names.cpp: RenderFlags and the tables of names
--   Client/Windows         the texts that Windows or the constants of its SDK supply
--   Client/Payload         MiniMonClient/src/trace/payload.h, values.cpp: reading captured bytes
--   Client/Entries         the loops over entries of trace/eas.cpp and trace/details
--   Client/Details         MiniMonClient/src/trace/details.cpp and details: the text of an operation
--   Client/Queue           MiniMonClient/src/queue.h: the bounded queue
--   Client/Session         MiniMonClient/src/main.cpp: the drainer and the writer as a step relation
--   Client/Sink            MiniMonClient/src/sink.cpp: the output files, one for each altitude
--   Client/CommandLine     MiniMonClient/src/main.cpp: the parameters
--   Client/Filter          MiniMonClient/src/filter.cpp: calls of the Filter Manager
-- Functions have the source's names in lower case with underscores. State is passed explicitly: an
-- operation takes the record of its component's variables and returns it. What the kernel, the Filter
-- Manager or Windows return is an argument, or a field of a record of such answers.
--
-- Bounds. A LONG or ULONG counter is its bit pattern, and its increments and differences wrap at 2^32
-- as they are written. `max_memory_kb` is any DWORD. The interleaved model allows 2^29 threads in
-- AllocateEntry at once, so that the counter cannot reach the sign bit, and any number of removals. The size of an Entry is that
-- of x64. Loops are recursion on the list they walk, or use fuel: the hexadecimal digits of a number
-- have 16 and the decimal ones 20, which any 64-bit value fits; the parser of the command line has one
-- round for each argument, of which a round takes one at least; a loop over entries has one round
-- more than the payload has bytes, and every entry but the last is one byte long or more.
--
-- Not modelled: the payload texts of trace/details/info.cpp, filesystem.cpp and deviceio.cpp by
-- information class or control code, with their loops: arguments of the operation's text that may fail; the
-- tables of names whose constants are the Windows SDK's, times and security identifiers, which are
-- fields of Windows; the columns of a line beside the operation's text; the name queries of the driver
-- (trace/name.cpp), the remaining supplements, the order of calls in wmain, and the
-- conversion to UTF-8, which Windows does. Locks are not modelled as such: what runs under one lock is
-- one step. A wait on a condition variable is a result that says so, and wake-ups
-- are not told: a thread that waits may test its condition again at any time.
pub mod Common
pub mod Protocol
pub mod Driver
pub mod Client
