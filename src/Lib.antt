-- ===== src/Lib.antt =====
-- A model of wzy_server, a small web server in C++ (wzy_threadPool/), with the theorems that hold
-- of it.
--
-- The program. server.cpp runs one loop on epoll: it accepts connections, reads what they send,
-- hands them to a pool of worker threads, sends what the workers have made ready, and closes
-- connections whose timer has run out. A worker takes a connection from the pool's queue, borrows
-- a database connection, parses the request and builds the response. All parts write a log, by
-- default through a bounded queue that a thread of its own empties.
--
-- Which file models what. Names of functions are the source's, in small letters; `init` is a
-- constructor or an `init`, `destroy` a destructor.
--   Queue.antt       wzy_threadPool/log/block_queue.h, `block_queue`
--   Timer.antt       wzy_threadPool/timer/lst_timer.h and lst_timer.cpp, `sort_timer_lst`
--   SqlPool.antt     wzy_threadPool/CGImysql/sql_connection_pool.h and .cpp, `connection_pool` and
--                    `connectionRAII` (`with_connection`)
--   ThreadPool.antt  wzy_threadPool/threadpool/threadpool.h, `threadpool`
--   Http.antt        wzy_threadPool/http/http_conn.h and http_conn.cpp, `http_conn`: the state, `init`,
--                    `close_conn`, `read`, `unmap`. Line has `parse_line`, Request the parsing of the
--                    request line, headers and body, Resource `do_request`, Response `process_write`,
--                    Send `write`, Process `process_read` and `process`, Table `initmysql_result`
--   Log.antt         wzy_threadPool/log/log.h and log.cpp, `write_log` and `flush`; Writer has `init`, the
--                    destructor and the thread that empties the queue
--   Server.antt      wzy_threadPool/server.cpp: what the loop keeps, the callback of the timers and the
--                    signals; Loop has the loop of `main` with a function for each kind of event, Setup
--                    what `main` does before and after it, Worker a worker's round on the whole state
--   Prelude.antt     shared names, lists, integers, bytes, and the outcome of a run
--   Samples.antt     the objects that several files of tests use
-- Below each of these, files named for what they prove, and Tests with concrete runs.
--
-- The model. A component's state is a record, and an operation a function from the state to a
-- `Run`: a result with the new state, `fault` for undefined behaviour (a null or dangling
-- pointer, an index out of range, a function that ends without its value), `blocked` for a wait
-- that nothing ends, `exits` for `exit` and for an exception. Timers live on an explicit heap.
-- Mutexes (`locker`) are flags and semaphores (`sem`) counters of the record that has them, and a
-- flag says whether a signal interrupts a semaphore's wait; where threads share a component, a
-- step relation interleaves what they do between a lock and its unlock. The main loop and the
-- workers interleave by whole events and whole rounds. Pointers into the read buffer are indices,
-- and reads of C strings stop at a NUL inside the buffer or fault. Bytes and sizes are natural
-- numbers; the counters of the connection pool wrap at 2^32, and sizes that the source turns into
-- `int` are turned into 32-bit integers. System calls that only have effects are kept in a list,
-- newest first; what calls return (`recv`, `writev`, `accept`, waits, the clock, the file system,
-- MySQL, and the address of the next `new`) is an argument.
--
-- Loops and fuel. Loops over a counter, over the events of a batch and over what `accept` gives
-- are structural. The loops of the timer list take fuel, and their theorems ask for more fuel
-- than the list has timers; `process_read` takes twice the number of bytes read and two more
-- rounds, which is always enough. The main loop is a list of batches. Its invariant `IsGood` ties
-- every timer to the connection that it closes; what a connection is accepted with, the address
-- of its new timer among it, is asked to be fresh.
--
-- Not modelled: the variants that are not compiled (the blocking `accept` under listenfdLT, the
-- log without a queue under SYNLOG), the lines that the components write to the log, conversions
-- of addresses, destructors that only free memory, and interleavings finer than those above. The
-- parser's C library functions are written out; `atol` is exact here and wraps when it is stored.
-- What `open` and `mmap` give is one argument, an address and the content behind it, so that
-- their failures are not told apart. What pthread's condition variables give is an argument of
-- the queue's pops, and the constructors of lock/locker.h are left out.
pub mod Prelude
pub mod Queue
pub mod Timer
pub mod SqlPool
pub mod ThreadPool
pub mod Http
pub mod Log
pub mod Server
pub mod Samples
