-- ===== src/Lib.antt =====
-- Heimdall WebSwitch: a switch that accepts HTTP connections, hands each to a worker process, and lets
-- the worker fetch the answers from one of several servers, chosen by a weighted round robin.
--
-- The parts, and how they work together:
-- - Throwable: code/utils/throwable.c, the error object that nearly every function returns. `propagate`
--   is the idiom by which a caller passes a callee's error on.
-- - Types: code/include/types.h, the structures of the shared segment.
-- - ThreadPool: code/web_switch/thread_pool.c. The main process puts an accepted descriptor into
--   `fd_array` (`add_fd_to_array`); the pool's thread takes one (`get_fd`), scans the worker table for
--   a free worker (`select_worker`), and writes the scheduled server into its entry (`assign_worker`).
-- - WorkerPool: the worker table outside the thread pool. `register_all` is the parent's side of
--   `do_prefork` (code/main.c), `remote_of` and `release_worker` the scans for the own pid in
--   `request_work` and `start_worker` (code/web_switch/worker.c). WorkerPool/Sessions lets the thread
--   pool and the workers take and free entries in any order.
-- - Circular: code/web_switch/circular.c, the ring of scheduled servers.
-- - RoundRobin: code/web_switch/round_robin.c. `weight_pattern` is `weight_servers` up to the call of
--   `allocate_buffer`, with `weigh` and `exchange` its sort and `pattern_loop` its second loop;
--   RoundRobin/Even is the pattern of servers of equal weight.
--   `get_server` is the search for a server that is up, with `find_ready` its loop.
-- - Scheduler: code/web_switch/scheduler.c, the scores of the servers and the update of the pool, and
--   the buffer that `reset_servers` fills from the pool. Scheduler/Start composes it with the pool in
--   memory and the round robin: `reset_servers`, `init_scheduler` (Start/Order), `get_scheduler` and the
--   rounds of `update_server_routine` (Start/Rounds). Scheduler/Poll is what the scheduler is told about a
--   server, over the calls of ApacheStatus.
-- - ServerPool: code/web_switch/server_pool.c, the configured servers as a linked list in memory.
-- - Helper: code/utils/helper.c, the conversion of the configuration's numbers.
-- - Watchdog: code/web_switch/watchdog.c, the thread that ends a worker's idle connection, over the ends
--   of its sleeps.
-- - Pointers, RequestQueue: code/web_switch/request_queue.c, a doubly linked list in a memory that maps
--   addresses to nodes, where a fault is `none`.
-- - Worker: code/web_switch/worker.c, the reader, the request threads and the writer of a worker over
--   one connection, as events on its queue (`read_work_enqueue`, `read_work_enqueued`, `read_work_receive`,
--   `read_work_fail`, `read_work_stop`, `request_work_end`, `write_work_round`, `write_work_fail`,
--   `write_work_dequeued`); Worker/Request is
--   `request_work` over the answers of its calls. Worker/Runs says what a step can leave, for the
--   invariants of Worker/Order and Worker/Limits. The queue is a sequence there, as RequestQueue/Fifo shows it
--   to be between whole operations. An enqueue and a dequeue have a beginning and an end; once they have
--   overlapped, as the source allows, the queue may be any, and RequestQueue/Race shows, statement by
--   statement, what can become of it. Worker/Service is the loop of `start_worker` round the connections of
--   one process (`serve_round`), with its ends (Service/Ends) and the descriptors it leaves open
--   (Service/Rounds).
-- - Main: the accept loop of code/main.c in turns with `thread_pool_loop` of
--   code/web_switch/thread_pool.c and the workers (`step`): Main/Descriptors follows every accepted
--   descriptor, Main/Delivery one connection from `accept` to its server, Main/Prefork the case without
--   workers.
-- - UnixSocket, MessageController: code/utils/unix_socket.c and code/web_switch/message_controller.c, by which
--   the switch hands a descriptor to a worker, with the descriptors a process has open.
-- - Log: code/utils/log.c. `i`, `d`, `e` and `t` call each other when a setting cannot be read, up to a
--   depth of the stack (Log/Levels); `r` writes the files of requests and responses (Log/Files).
-- - HttpRequest: code/http/http_request.c, the first line of a message and the request that is sent on;
--   HttpRequest/Headers is `get_header` and `read_headers` on the bytes of the buffer, with its loop over one
--   line in Headers/Lines and whole messages in Headers/Message.
-- - HttpResponse: code/http/http_response.c, the division of a response into its head and its body.
-- - ApacheStatus: code/web_switch/apache_status.c, the parser of a server's status page;
--   ApacheStatus/Retrieve is the way the page is asked for, with Retrieve/Fetched for an answer and
--   Retrieve/Left for every end.
-- - Config: code/config/heimdall_config.c, the lines of a configuration, cut into keys and values for a
--   callback; Config/Settings the callback, which stores each known key; Config/Servers is
--   code/config/server_config.c, the file of servers.
-- - Connection: code/http/connection.c, `send_http` and `receive_http_header2` over the answers of
--   `write` and `read`; Connection/Messages the functions that compose these with the messages, and
--   Connection/Sockets the setup of sockets over what the system's calls answer.
-- - Chunk: `receive_http_chunks` and `send_http_chunks` of code/http/connection.c over the chunk of
--   code/web_switch/chunk.c, as steps that interleave.
-- Prelude holds what the parts share: lists, tests and integers over the native numbers.
--
-- Bounds and fuel. `pattern_loop` runs on fuel; RoundRobin/Pattern says when it ends, with a bound,
-- and when no fuel is enough. `find_previous` of the pool likewise (ServerPool/Delete). `find_ready`
-- is given `buffer_len` rounds, after which the loop of the source always leaves. `destroy_loop`
-- needs one round more than the queue has nodes. The log's calls of itself are bounded by a depth of
-- the stack, whose end is an outcome. The other loops recurse on their data. A
-- `char` is its code; an `int` is a natural number where it counts and an integer where it can be negative
-- (weights, status, counts of workers), without its upper bound: sums of weights and counters stay
-- far below it. `str_to_int`, which reads any number, has the wrap of `int` written out.
--
-- What a call of the system answers (`read`, `write`, a mutex, the status page of a server) is an
-- argument, and so is what `realloc` does to a block, whose old pointer the source keeps. Failures of `malloc`
-- that end the process are left out. Not modelled: `receive_http_header`, which nothing calls; shared memory, whose functions are calls of the
-- system; the setup of the main process before its loop and its cleaning behind it;
-- and the sharing of the scheduler's buffer by its update and the thread of the pool.
pub mod Prelude
pub mod Throwable
pub mod Types
pub mod Log
pub mod Main
pub mod UnixSocket
pub mod MessageController
pub mod Helper
pub mod Watchdog
pub mod ThreadPool
pub mod WorkerPool
pub mod Circular
pub mod RoundRobin
pub mod Pointers
pub mod RequestQueue
pub mod Scheduler
pub mod ServerPool
pub mod HttpRequest
pub mod Config
pub mod Connection
pub mod Chunk
pub mod Worker
pub mod ApacheStatus
pub mod HttpResponse
