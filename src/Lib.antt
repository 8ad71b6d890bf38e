-- ===== src/Lib.antt =====
-- protei_cov, a call centre driven by HTTP requests. A request for a phone number becomes a
-- task; the manager hands it to a thread pool, whose workers (the operators) take tasks from one
-- bounded queue; the client waits on the task's promise. A config file gives the bounds of a
-- call's length, the number of operators and the size of the queue, and is read again on request
-- or when the file has changed. Every finished call leaves a call detail record (CDR).
--
-- Which file models what (paths are from the repository's root):
-- - CallRecord: include/commonStructures.hpp and src/commonStructures.cpp. `CallStatus`, `CDR`
--   and `Result` are data; `to_string`, `prepareTime` and `operator<<` are functions into byte
--   lists. Fields and Reading are about the line of a record.
-- - Json: src/jsonParser.cpp, as calls on the parser's tree that return, throw or are undefined
--   (Effects). Json/Laws is about the map that `outputConfig` makes.
-- - Config/Settings, Config/Normalize, Config/Range: the map `data_` and `normalizeData`.
--   Config/ThreadSafe: class ThreadSafeConfig; a method that takes the mutex is one step, and
--   `make` is the constructor, with its outcome. Config/Laws/Reread says what an update takes over
--   of a file.
--   Config/Simple: class Config. Config/Monitor: the calls of the manager by ThreadSafeConfig,
--   and its thread as a run over the minutes that pass, up to the destructor
--   (Config/Laws/Ending).
-- - World: tasks, promises and what recorders were given, as stores indexed by pointers.
-- - Task: src/task.cpp. `doTask` reads the clock and the random device from its argument.
-- - Queue: src/queue.cpp, on the queue and the world that its items point into. Line is the
--   queue as its users see it, a line of callers; Admit and Runs relate the calls of the methods
--   to it.
-- - Pool: include/threadpool.hpp and src/threadpool.cpp. A worker is where its thread stands in
--   `run`; `turn` is its next move, and what runs under the pool's mutex is one move; Rounds and
--   Drain follow one operator, Stopping one whose pool is stopped. Join is the destructor: its
--   threads move in some order (`Turn`) until `join` returns for all. Alike, Invariant, Moves,
--   Finish, Turn and Kept show what any worker's move keeps, Placed and Joining where the
--   clients stand, Dismissed and Arrival what a new call does to them, Progress and Answered how
--   a running pool gets to the end of its work.
-- - Manager: include/manager.hpp and src/manager.cpp, over any config (`IConfig`, filled by both
--   config classes in Configs). A task's pointer is the next number, and its promise the same.
--   NewPool and Replace are the change of pools, Renew is `update`, Fresh and Arrive `addTask`,
--   Move a worker's next move, Rules relates the states around `update`; Reread, Request and
--   Watch show what `processRequestForUpdate` and the thread that watches the config's file do
--   to config and manager, Ending what the destructor of the config needs of the manager,
--   Events, Step and Days the order of a manager's calls.
-- - Builder: include/builder.hpp and src/builder.cpp. Main: src/main.cpp, from the arguments to
--   the end of the server's loop.
-- - Http: src/httpServer.cpp, from a request's method and path to the response, over a manager;
--   Http/Server has the constructor and the accept loop, Http/Served the days after the start.
--   Connections cuts a connection's thread at `future.get()` and, in a request for an update,
--   where the config's mutex or the manager's is let go; Steps has two requests in turn. Visits
--   and Accept are requests over the program's own manager. Serving is the running server: one
--   happening is one step of a connection's thread, an operator, or the thread that watches the
--   file; Alive, Advance, Life, Finishing, Waiting, Schedules, Replies and Clients follow it
--   from the constructor to the replies.
-- - Recorder: src/recorder.cpp, the text of the file.
-- - Effects/Grows has the rules for relations between the states before and after a call,
--   however it ends; the modules Final of World, Task, Queue, Pool, Manager and Http are about
--   one such relation, that of the promises that are satisfied.
-- - Stdlib: the decimal texts and `std::stoll` of the standard library, as the program uses
--   them.
--
-- Numbers: times are nanoseconds since the epoch, ids and pointers natural numbers, the settings
-- integers. The decimal printer runs on fuel n + 1 for the number n, which bounds its digits.
-- Parameters: Boost's property tree (`PropertyTree`), the local calendar (`local_time`), the
-- random distribution (`Distribution`), the files (`Host`), the manager as the config and the
-- server see it (two records `IManager`), the hashes of thread ids, the memory of members that
-- are not set, the order in which threads move, and whether the log file and the port open. Runs
-- of the threads are lists of their turns: three for each thread end the destructor, and 3 n + 2
-- for each a queue of n calls in a running pool.
-- Not modelled: logging, but for its null pointers and for the log text that can throw;
-- sleeping; notifications of the condition variables, since a waiting worker may look at any
-- time; sockets and HTTP parsing, which are Boost's; threads of handlers that call `addTask` at
-- the same moment, since the pool's mutex puts what they share in an order; the end of a file's
-- life, in which the time of the config's file cannot be read, while the server runs
-- (Config/Monitor has it alone); what becomes of the objects after `main` has returned;
-- `transferObjects` of a pool from itself, which is undefined and which nobody calls; the tests
-- of the repository; the load test tool.
pub mod Prelude
pub mod Effects
pub mod Stdlib
pub mod CallRecord
pub mod Json
pub mod Config
pub mod World
pub mod Task
pub mod Queue
pub mod Pool
pub mod Manager
pub mod Builder
pub mod Recorder
pub mod Http
pub mod Main
mod Tests
