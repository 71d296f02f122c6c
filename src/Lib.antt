-- ===== src/Lib.antt =====
-- The models of the C++ utility classes in code/, of a trading system's common library.
--
-- The parts and how they interact. Logger and the rest of the library write into the circular
-- buffer of bytes and build their texts with the string builder; Format and Time convert values to
-- text and back, and use the functions of StringTools.
--
-- Base: lists, options and Boolean tests over the native numbers, machine words that wrap, the
--   checked copy `std_copy` (std::copy and memcpy: `none` is an access outside an array), signed
--   integers with C++'s division. Nothing there models code of its own.
-- CircularBuffer: code/CircularBuffer.hpp. The record has the fields of the class; init, copy,
--   assign, write, skip, peek and read are its operations. A reply is a length or a negative error
--   code. Window relates the array to the elements held, Inv is the invariant, and Queue the
--   bounded queue that the buffer refines.
-- StringBuilder: code/StringBuilder.cpp. The record has the three members; append, expand and the
--   others are the operations, Invariant what each keeps. New memory holds an unspecified byte.
-- StringTools: code/StringTools.cpp, in Match (startsWith, endsWith, isDate), Trim, Edit (case,
--   removals, replaceAll) and Numbers (isInteger, isInteger64).
-- Format: code/Format.cpp, the conversions of Booleans (Logic), hexadecimal text (Hex) and commas
--   in numbers (Comma).
-- Time: code/Time.hpp and code/Time.cpp. Text has the format strings as lists of conversions, with
--   what snprintf and sscanf do with them; Parse the constructor from a text, Print Time::format,
--   Arith the moves, the differences and the rounding; Digits and Roundtrip the theorems.
-- Logger: code/Logger.cpp and Logger.hpp. Levels and Names have the levels, Groups the levels of the
--   groups and the settings that refer to them; Frames is what a write leaves in the circular buffer,
--   Flush one round of the loop of flush, Drain the loop, and Sequence the promise to the client, a
--   queue of pending messages. How a header lies in memory is a parameter, and what is printed is a
--   list of lines. A write is one step under the mutex. The source releases the mutex in every round of
--   flush while it prints the line, so the steps of Sequence are writes, single rounds of a flush and
--   whole flushes, in any order. Not modelled is what others write between the two reads of a message
--   of more than 8192 bytes, which are one step. Only plain writes make such messages: a formatted
--   text of 8192 bytes and more is formatted twice with the same arguments, which is undefined.
-- Decimal: code/DecimalDecNumber.cpp over the decNumber library, a parameter. Text prints integers,
--   ToInt sums the units of a number, Guards has the conversions to int32 and the constructor from an int64,
--   Compare the operators within a tolerance, Rounding the choice of a rounding and `round`, Unpack
--   unpackScientificFormat over a buffer of bytes, where pointers are indexes and `none` is a write
--   outside, Print toString and what rests on it, and Functions those that are no members.
-- Atomic32: code/atomic32.hpp and code/atomic32.cpp. A member function is one locked instruction and so
--   one step; Interleaving has the orders of two threads' calls, Swap the compare-and-swap.
-- Locks: code/Details.hpp, Semaphore.cpp, Condition.cpp, Mutex.cpp and ReadWriteMutex.cpp, the loops
--   around the calls of POSIX; what those return is a list, and Retry says when the loops end. Setup
--   has the constructors with the attributes objects that they make and destroy.
-- Thread: code/Thread.cpp, the owner of a thread object and the thread it starts, as a step relation;
--   Alone has what holds on their runs, Stop what a call of `stop` brings about.
-- ThreadPool: code/ThreadPool.cpp, ThreadPool.hpp and ThreadPoolReactor.hpp. A pool is its queue, which
--   is a parameter, the names of its tasks and its counters; Reactor routes items to pools, Route says
--   where they go, Uniform how large the pools are and Balance what the round robin spreads. A call
--   is one step: what other threads see between its parts is not modelled.
-- Latch: code/Latch.cpp, a thread in Latch::attempt and a thread in Latch::open as a step relation;
--   Wakeup has what holds on their runs.
--
-- Values. A byte is a number below 256, a std::string the list of its bytes, a C string a list up to
-- its first zero byte, a null pointer `none`. uint32 wraps round. An int64 of Time is its exact value:
-- its overflow is undefined in the source. A thrown exception is `none`, and so is what C++ leaves
-- undefined.
--
-- Assumptions. Allocation succeeds. Lengths cast to int are below 2 ^ 31. Letters are those of the C
-- locale. strtol, sscanf in Format and the calendar of the Apache Portable Runtime are parameters, with
-- what they document as hypotheses where a theorem needs it. So are the decNumber library, the work
-- queue of a pool, what the compiler makes of the negation of the least int64, and the place of a
-- log header in memory.
--
-- Loops. Those over an index or over bytes recurse on it. The loop of replaceAll has fuel, one round
-- for each byte of the source and one more, which is enough unless the text to replace is empty.
-- Printing a number has fuel for 20 digits, as many as an int64 has. The loop of flush has a round
-- for each byte of the buffer and one more, and every message has at least a byte of header.
--
-- Not modelled: the symbolic links of the logger, its messages to syslog (switched off in the
-- source) and its thread, and writes between the two reads of a long message; the status that const
-- functions of decimal numbers leave in an argument, and the numbers of decimal places from 2 ^ 31 on,
-- which an int does not hold; tasks and interruptible sleeps; the decNumber library and the lock-free
-- queues, which are copies of other projects; file input, floating point, test harnesses and test
-- programs.
pub mod Atomic32
pub mod Base
pub mod CircularBuffer
pub mod Decimal
pub mod Format
pub mod Latch
pub mod Locks
pub mod Logger
pub mod StringBuilder
pub mod StringTools
pub mod Thread
pub mod ThreadPool
pub mod Time
