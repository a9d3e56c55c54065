-- ===== src/Lib.antt =====
-- dolphin-re-mcp: a model of the server that drives Dolphin's GDB stub for reverse engineering.
--
-- The program is a set of tools over one session. The session owns the client of the GDB stub
-- (gdb/client.py), a registry of breakpoints and two memory backends; the tools check the
-- session's state, drive the client and update the registry. The paths below are relative to
-- src/dolphin_re_mcp.
--
-- - Prelude and its children: native numbers, lists, integers, and the text functions of Python
--   that the program calls (split, strip, int, hex, bytes.fromhex). Text is a list of code points;
--   white space and digits are those of ASCII and Latin-1.
-- - Errors, Exec: exceptions without their messages, and code that changes a state and may raise.
-- - Gdb.Socket: the TCP socket and the clock, which are no code of the repository. What the peer
--   does is a script of finitely many events that stands in the state, behind which it is silent, and
--   "any peer" below is any such script; a peer that sends for ever, as one whose packet never ends
--   does, is not among them. Times are in microseconds and each reading of the clock is one tick
--   later.
-- - Gdb.Stub, Gdb.Packets, Gdb.Acks, Gdb.Commands, Gdb.Execution: `GDBStub` in gdb/client.py.
--   Stub is its state, Packets `_read_packet_from_wire` and the framing, Acks `_consume_ack`,
--   `_send_packet` and `cmd`, Commands the queries, memory and breakpoint commands, Execution
--   running and draining. Bytes that are no ASCII decode to one replacement character each. The
--   loops have as much fuel as there are bytes in the buffer and events in the script, and the
--   theorems on errors exclude that it runs out.
-- - Gdb.Registers, Gdb.StopReply: gdb/registers.py and gdb/stop_reply.py. A floating-point register
--   is kept as its eight bytes.
-- - Memory.Routing, Memory.Attach: memory/routing.py and memory/attach.py. The calls of the operating
--   system are the fields of the record Host. The walk over a process has as much fuel as there are
--   addresses.
-- - Symbols: symbol_map.py, from the text of the map file on.
-- - Session: session.py. The locks make tools and rounds of the watcher take turns, so a tool is a
--   function of the state of the session; Session.Registry, Session.WellFormed and
--   Session.Disconnect have its lemmas.
-- - Tools.Quiesce, Tools.Matching, Tools.Breakpoints: tools/breakpoint_tools.py. The two loops that
--   last a second have one round for each tick of the clock as fuel: a round reads the clock, which
--   moves on by a tick at least, so it never runs out. Matching.Rules has what makes a breakpoint
--   the reason of a stop, Quiesce.Sent what goes over the wire meanwhile.
-- - Tools.Watcher: stop_watcher.py, one round of the thread at a time. Python's eval of a condition
--   is a parameter.
-- - Tools.Execution, Tools.Step, Tools.Modes: tools/execution_tools.py; Tools.Step has the tools that
--   disassemble where they stop.
-- - Disasm: disasm/ppc.py. Mnemonics has the tables and the classification, Operands branch targets
--   and effective addresses, Decode the instructions, Pairs the pass that joins `lis` with the
--   instruction that completes its value, with the operands as they are printed in Pairs.Parsing and
--   what the processor does in Pairs.Runs. Capstone is a parameter: a function from bytes and an
--   address to instructions.
-- - Tools.Disasm: tools/disasm_tools.py, over Disasm and the symbol map.
-- - Tools.Memory: tools/memory_tools.py. Search has the search by chunks, whose fuel is one round for
--   each byte of the region and of the buffer, Report the hexadecimal dump and the comparison with
--   the bytes of a dump.
-- - Tools.Compound: tools/compound_tools.py, over the other tools. While a trace collects, the thread
--   sleeps and the watcher takes a number of rounds, which is a parameter.
-- - Tools.Order, Tools.Reachable: any order of tools and rounds, as a step relation.
-- - Session.Proper, Session.Ends, Tools.Ends: the fuel of every loop is enough. A run is proper if it
--   returns or raises an exception of the program.
-- - AutoConnect: auto_connect.py, one round of the worker at a time.
-- - Session.Health, Gdb.Diagnostics: the reports of session.py and gdb/client.py.
-- - Cli: `doctor` in cli.py, without what it prints.
-- - Tests: runs at concrete states.
--
-- Not modelled: log output and what is printed, the texts of errors, the registration of the tools
-- with the server, the tools that write or load a file (the snapshot of a dump, the reload of the
-- symbol map) and the annotation of results with symbols outside the disassembler.
mod Prelude
pub mod Errors
pub mod Exec
pub mod Memory
pub mod Gdb
pub mod Symbols
pub mod Disasm
pub mod Session
pub mod AutoConnect
pub mod Tools
pub mod Cli
pub mod Tests
