-- ===== src/Lib.antt =====
-- VisionPipe: the lexer and the parser of its script language, its runtime parameters, and the
-- frames that its pipelines share.
--
-- The program runs scripts (.vsp) that process camera frames. A script's text goes through the lexer
-- to a parser and an interpreter. The interpreter reads runtime parameters from a store, through a
-- snapshot that a generation counter invalidates; clients change the store over a line protocol.
-- Frames are kept in a cache: in local scopes, in a map that threads share, and in an anonymous
-- shared-memory arena that forked processes share.
--
-- Lexer (src/interpreter/lexer.cpp, include/interpreter/lexer.h): Token has the tokens and the keyword
-- table, Scan and Machine the scanners (scanToken, scanString, scanNumber, ...), Stream the object
-- with nextToken, peekToken and tokenize. Spells says how tokens are spelled, what may
-- stand between them and where none can be read, without the scanners. A cursor is the source that is left and its location. An
-- exception is an outcome: an error with its location, or the exception of stod. The recursion of
-- nextToken behind comments runs on fuel, one more than the bytes that are left, and the loop of
-- tokenize on two more than the source is long: enough, since every round reads a byte or is the last.
--
-- Params (src/interpreter/param_store.cpp, src/interpreter/param_server.cpp, and refreshParamCache of
-- src/interpreter/interpreter.cpp): Value has ParamValue and the wire format, Store the ParameterStore,
-- Snapshot the interpreter's snapshot, Server processCommand and the client's watch list, Session the
-- line buffer of handleClient. The loop over the lines of the buffer runs on fuel, one more than its
-- bytes: enough, since every line takes its line feed away. Newline, Bytewise and Pieces are about
-- that loop, Laws, Notify and Snapshot about the store, Wire and Watching as named. The callbacks
-- that a call makes are listed in its result. Counters wrap at 2 ^ 64.
--
-- Parser (src/interpreter/parser.cpp, include/interpreter/ast.h): Syntax has the tree, State the
-- state of a parser and what a call ends with (a value, a ParseError with the state at the throw, a
-- read outside the tokens, another exception), Cursor the helpers that move over the tokens,
-- Expressions, Simple, Statements, Parameters, Declarations and Programs the productions. An `if` on
-- the tokens is `branch`, a `try` with its handler is `attempt`. The productions run on fuel, eight
-- times the number of tokens and sixteen: enough, since at most five calls lie between two tokens.
-- Runs, Moves, Recovers and the modules that end in Runs are about what a production reads, Total
-- and Recorded about the parser as a whole and the errors that it keeps. Grammar is the language of expressions, written without the parser;
-- Gives, Readings, Spelling, Leaves, Levels, Arrows, Calls and Completeness are about how the parser
-- reads what it spells, Ensures, Sound, Places and Soundness about what it can return.
--
-- Arena (src/utils/shm_zero_copy.cpp): Slots has findSlot, Frames the writes and reads, Throughput the
-- counters. A slot's three buffers stand with the slot. Cache (src/interpreter/cache_manager.cpp,
-- include/interpreter/cache_manager.h): Entry has the structs and the flags, Scopes the local scopes,
-- Global the shared map with its two ways to the arena, Manager the unified operations, the numeric
-- keys and the statistics. The arena is a state of its own, since every process has its own manager.
-- Calls are steps, as the locks order them (a call of the ParameterStore too, although it bumps its
-- generation behind the lock); several managers over one GlobalCacheData are not modelled. Arena.Race looks at the stores inside a write.
--
-- Base has the helpers: lists, byte strings, association lists for unordered_map (the order of the
-- entries stands for the order in which the map is walked) and decimal numbers. Mats has cv::Mat.
-- Tests applies the theorems to concrete inputs.
--
-- Parameters of the model: double with its conversions and stod (Floats, stod), cv::Mat (Mats, whose
-- laws are IsLawful), the clock, the callbacks.
--
-- Not modelled: the interpreter's statements and items, transports to other programs, the
-- device managers, sockets, threads, verbose output and the command line tools. Letters and digits
-- are those of the C locale.
pub mod Base
pub mod Mats
pub mod Lexer
pub mod Params
pub mod Parser
pub mod Arena
pub mod Cache
pub mod Tests
