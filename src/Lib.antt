-- ===== src/Lib.antt =====
-- tinyfile: a file compression service. A client process, linked with the library src/api/api.c, puts
-- the path of a file into an entry of a POSIX shared memory object, sends a request over a message
-- queue to the server process, src/server/server.c, and polls the entry until the server has written
-- the path of the compressed file into it and marked it as done.
--
-- Types: include/tinyfile/types.h, messages.h and params.h, the data that both processes know.
--   `Arg` is `tinyfile_arg_t`, `Request` is `tinyfile_request_t`, `SharedEntry` is
--   `tinyfile_shared_entry_t`, and so on.
-- RequestQ: the library's priority queue (src/api/api.c, `request_q_enqueue`, `request_q_dequeue`,
--   `request_q_handler`, `async_req_q_init`, `async_req_q_destroy`), a linked list on a heap.
--   RequestQ.Interface is the queue as its users see it, RequestQ.Arena.Laws the implementation, and
--   RequestQ.History runs any sequence of operations on it.
-- Api: the rest of the library, on one record of its globals. Api.Shm has `resize_shm`; Api.Entries has
--   `find_shared_entry`, `is_request_done` and `recv_response`; Api.Requests has `prepare_request`,
--   `tinyfile_sync`, `tinyfile_async`, `tinyfile_async_wait` and `tinyfile_async_join`; Api.Session has
--   `tinyfile_init` and `tinyfile_exit`, with the queues and memory objects that they create, and in
--   Api.Session.Traffic the names that two clients have.
-- Library: include/tinyfile/api.h as an interface (a record of operations), and src/api/api.c as its
--   implementation.
-- Client: client.c, over that interface. Client has the options, Client.Reading the list of files,
--   Client.Elapsed the time, Client.Chosen what the options choose, Client.Main the calls of the library and
--   `main`.
-- Server: src/server/server.c. Server itself has the doubly linked list of clients (`append_client`,
--   `remove_client`, `find_client`), Server.Compress has `compress_service`, Server.Registry has
--   `register_client`, `unregister_client`, `registry_handler` and the part of `exit_server` that concerns
--   the clients, Server.Worker has `handle_request`, `service_worker` and `resize_shm`, Server.Worker.Crew the
--   workers of a client side by side as a step relation, Server.Threads has the calls that start, join and
--   cancel workers, and Server.Process has `init_server`, `exit_server` and `main`. Server.Interface is
--   include/tinyfile/server.h, and Server.Machine implements it on one state that holds the process, the threads, the shared memories and the files.
-- System: a client and the server composed over one shared memory object. System.Transport takes the requests
--   from the client's queue through its worker and the message queue to the server's worker, System.Idle
--   is a call and the library that it leaves, System.Backlog the requests of `tinyfile_async` that are
--   waiting, and System.Order two requests that are served in either order. Library.Runs and Library.Backlog
--   are the same behind the interface, and Client.Main.Served (SYNC) and Client.Main.Answered (ASYNC) the
--   runs of the whole program, from `main` to its return.
-- Common: the commands (`Run`, with undefined behaviour, waiting for ever and the end of the fuel as
--   results of their own), total correctness (`Returns`) and partial correctness (`Gives`), heaps, lists
--   and Boolean tests.
--
-- A C function is a command from a state to a result and a state. Machine arithmetic wraps around as
-- the source's types do: a `size_t` at 2 ^ 64, an `int` and an `unsigned int` at 2 ^ 32. An array
-- whose length is 0 or negative is undefined.
-- `sizeof(tinyfile_shared_entry_t)` is a parameter.
-- A loop over a list is given a number of rounds; one more than the length of the list is enough, and
-- the theorems on such a loop give that bound. A loop that waits for another thread or process is
-- given its rounds as a list, each with what the others do before it: any function on the state.
-- What the system answers (`shm_open`, `mmap`, `mq_open`, `malloc`, the C library's file functions, the
-- terminal and the clock) and the compression of snappy-c come as records of answers, on which the
-- theorems name what they need.
--
-- Not modelled: what the server prints. In client.c a thread that waits for its key runs when it is joined,
-- and within `handle_request` no other worker takes a step. Closing descriptors and unmapping have no effect
-- on the state that is modelled. The joins of the request worker in api.c (`async_req_q_destroy`, `resize_shm`)
-- and the destruction of its locks are left out, and no step of the worker comes between the unlock of
-- `async_req_q_destroy` and the flag. Server.Registry has `unregister_client` without the threads, which
-- Server.Machine cancels. Server.Worker.Crew does not restart the workers after a resize. What the C library
-- answers to one `compress_service` is given; only System.Order has answers that depend on the files that
-- were written. The directory include/snappy-c is another project's library.
pub mod Api
pub mod Client
pub mod Common
pub mod Library
pub mod RequestQ
pub mod Server
pub mod System
pub mod Types
