-- ===== src/Lib.antt =====
-- The worker unit of a miniature distributed system: it takes tables and instances from a server,
-- cleans and validates each table, learns a hypothesis from its rows on several threads, and sends
-- the result back. The files model the parts that decide what happens; input and output, SQL and
-- JSON are arguments or left out.
--
-- How the parts interact. `scheduleTask` (scheduler/task_pool.cpp) puts a process in the task pool;
-- the scheduler thread (`sched_task`, scheduler/sched.cpp) takes it from there to one of the thread
-- queues; a task thread (`thread_task`) calls its functions by turns. The stages of a table are such
-- processes: the cleaner deletes duplicate rows from its CSV file (services/file_database_access.cpp),
-- the validators replace values that the instance does not list, the stage tracker counts them
-- and starts the parts of the candidate elimination (algorithm/), whose results are gathered and
-- merged. Packets for the server go through the sender's stacks (sender_proc/) to the socket thread
-- (socket/socket.cpp).
--
-- Files:
-- - Base: shared names, lists over native numbers, texts as lists of bytes, and int with its
--   conversion to size_t.
-- - Scheduler.Job: QueueJob, ProcessTable and the status bits (scheduler/sched.hpp, include/).
--   `set_bit`, `reset_bit` and `bit_set` are setJobStatus, resetJobStatus and isJobStatusSet.
-- - Scheduler.ThreadQueue: the class of that name; `Slots` and `Invariant` state what its operations
--   keep, `Taking` which job popJob takes, `Rotation` the order in which getNextTask serves the slots.
-- - Scheduler.Balance: get_quickest_queue, get_busiest_thread_queue, rebalance_thread_queues and a
--   round of sched_task, with children for the choice of queues and for the moves. The threads take the
--   lock only within getNextTask and popJob; `Theft` is about a move between two steps of a task thread.
-- - Scheduler.Worker: a cycle of thread_task. What a job's start function returns, and whether the
--   timer ran out meanwhile, is a list of rounds.
-- - Scheduler.Registry and Scheduler.TaskPool: scheduler/process_manager.cpp and
--   scheduler/task_pool.cpp.
-- - Start: main.cpp, configs.hpp and init_sched, from the answers to the prompts to the queues.
-- - Socket, Sender.Package, Sender.AwaitStack, Sender.ForwardStack, Sender.Sink: the flags of the
--   socket thread, the two stacks, the packets and the rounds of socket_task. Sender.Clients: that
--   thread and the client threads it starts, whose steps interleave in any order.
-- - FileDatabase: FileDataBaseAccess; the file is an optional text passed explicitly.
-- - Instances: instance/. DataProcessor: data_processor/, a file for each stage, of which Processor is
--   the first; the ends of the others, which hand a table on, are in DataProcessor.Pipeline.
-- - Statistics: services/stats_engine.cpp. Sqlite: services/sqlite_database_access.cpp.
-- - Algorithm.Elimination, Algorithm.Finalize, Algorithm.Split: candidate_elemination.cpp,
--   ce_finalize.cpp and algorithm_scheduler.cpp under algorithm/. Algorithm.Learning: these three put
--   together, from the parts of a table to the merge of their results. Algorithm.Packages: the table of
--   algorithms with algorithm/example.cpp, and the way of a table's jobs into the task pool.
-- - Receiver.Stage: identifyPacketType, over what the schemas make of a packet. Receiver.UserData and
--   Receiver.InstanceData: the two parsers; one puts a table in its file, the other sends the statements
--   for a table of instances to the database, whose texts are in Receiver.Queries. Receiver.Finish:
--   what the stage answers, and how a table goes on to the data processor.
-- - Examples: the theorems at concrete inputs.
--
-- Conventions. Numbers are the native natural numbers; a wrap-around is written out where the
-- source has a fixed width that can be reached, and an int that can be negative is a `ℤ`. An
-- access out of bounds, through a null pointer or to an empty container is `none`, or `undefined`
-- where a held semaphore can also block. Loops over a container are structural recursions. Fuel
-- stands for the number of calls or rounds in `move_jobs`, in the `run_job` of the cleaner, the
-- validator and the elimination, in `insert_rows`, and in the decimal digits of a number: more
-- than the busy queue has jobs, one more than the table has rows, two more than the part has rows,
-- one more than the text has bytes, and one more than the number itself.
--
-- Parameters. `boost::iequals` is a test on two texts, of which two theorems ask that a text
-- equals itself. The queries of services/sqlite_database_access.cpp are functions with `none` for
-- a null pointer, or act on a database of any type. Random numbers and uninitialised variables are
-- arguments, and so are the statistics in a packet. sqlite3_exec is a function on a database of any
-- type; the models that use the queries take these as arguments.
--
-- Not modelled: JSON and its schemas (lib/, include/json.hpp), the websocket client, the start and the
-- end of the threads, the example algorithm's functions, which only log, logging, the overflow of
-- StatisticsEngine's counters of tasks, and the interleaving of the scheduler's threads within the
-- operations of a queue: only getNextTask and popJob take the lock of a queue.
mod Base
pub mod Scheduler
pub mod Socket
pub mod Sender
pub mod FileDatabase
pub mod Algorithm
pub mod Instances
pub mod DataProcessor
pub mod Examples
pub mod Receiver
pub mod Statistics
pub mod Sqlite
pub mod Start
