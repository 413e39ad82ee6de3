-- ===== src/Lib.antt =====
-- Greenis, a small Redis in C++: a verification library of its wire protocol, its connections, its
-- timers, its hash table, its sorted sets, its thread pool and its commands on keys.
--
-- The program. server.cpp polls the sockets and hands each ready connection to
-- lib/server/conn.cpp, which buffers bytes, cuts requests out of them with
-- lib/server/response.cpp, runs the command on the store of lib/server/key_value.cpp and frames
-- the reply. The store is a hash table that rehashes progressively (lib/server/HashTable.cpp);
-- replies are serialized by lib/server/buffer.cpp. The client (lib/client/query.cpp) writes one
-- request and prints one reply.
--
-- The files. Bytes has little-endian words. Buffer models inc/server/buffer.h and
-- lib/server/buffer.cpp: a buffer is the list of its bytes, and a function that appends returns
-- the new one. Message is the frame that both directions share (K_MAX_MSG of inc/defs.h). Request
-- models read_u32 and read_str of lib/utils.cpp and parse_req; Request/Format is the format as a
-- grammar. Reply is the reply format written apart from the code, with what each out_ function
-- appends. Response models response_begin, response_size and response_end. Client has query.cpp:
-- Io the loops over read and write, Send send_req, Print print_response, Values and RoundTrip what
-- it reads back, Receive read_res. App is what a connection asks of the store, do_request and no
-- law, with store_app for the program's own; Conn models the connection over it: Frames what
-- stands at the front of the received bytes, Serve the loop over requests, Ready the readiness
-- intentions, Commands the program's get and set as a connection runs them. HashTable models
-- inc/server/HashTable.h and HashTable.cpp: Slots the chains, Tab one table, Rehash the migration,
-- and Insert, Lookup and Delete the map against a collection of nodes. Heap models
-- lib/server/heap.cpp: Places the entries of the array, Order what the heap keeps, Up and Down the
-- two repairs, Update, Upsert and Delete the calls. IdleList models inc/server/list.h, and Ring
-- what its functions do to a list. Server models the table of connections, handle_accept and
-- conn_destroy of conn.cpp, next_timer_ms and the idle part of process_timers of
-- lib/server/timer.cpp, and what server.cpp does with a ready socket (handle_events is its reading
-- and writing): Live is the invariant, Steps its preservation, Expiry the closing of idle
-- connections, Poll the timeout, Ready one ready socket, Args what the loop asks of poll. KeyValue
-- models lib/server/key_value.cpp and do_request of response.cpp, with the sorted sets as an
-- interface that SetCommands, the commands on sorted sets, fills from Zset: Get is what a lookup
-- finds, Change and Added keep the database in order, Set is what set does, Expired the loop of
-- process_timers over the expired keys. Avl models inc/server/avl.h and lib/server/avl.cpp on a
-- store of nodes: Tree has the trees that a store stands for, Store what it means to hold one, Way
-- the surroundings of a subtree; RotateLeft, RotateRight, FixLeft and FixRight are the repairs of
-- one node, Attach and Fix the loop of avl_fix, Repair and Balance what it makes of the tree; Rank
-- tells the nodes apart by their places; Held is the tree as a balanced list with avl_fix at a new
-- leaf; Place, Locate, Remove, Easy, Swap, Finish, Exchange and Delete are the parts of avl_del;
-- Offset is avl_offset. Zset models inc/server/zset.h and lib/server/zset.cpp over both: Search
-- and Seek are its two loops, Insert and Update what the operations make of the order, Clear what
-- is freed, Lookup what a name finds, Delete both indexes without a member. ThreadPool models
-- lib/server/thread_pool.cpp as a step relation: Order is its invariant, Drain the way to every
-- job.
--
-- How code becomes definitions. A call that can fail an assertion or read out of range has a
-- result in Run: a value, a fault, or rounds that ran out. Sizes of containers are natural numbers
-- bounded by memory; the arithmetic of the code on 32 and 64 bits is written with its wrap-around
-- where its operands come from the wire. A double is the pattern of its eight bytes. Results of
-- read and write are given by the environment; write is assumed to send at most what it is
-- offered. The handlers of connections are defined over any do_request, and the theorems on them
-- assume nothing of it; where one says that a handler returns, it says that the requests which are
-- complete are answered without a fault (Runs in Conn/Ready).
--
-- Fuel. serve takes one round more than bytes have been received, since a request takes at least
-- four; print_response takes one level more than the size of the reply, since an item is shorter
-- than its array; rehashing takes K_REHASHING_WORK and the slots of the older table and one, since
-- a round moves a node or passes a slot; heap_up takes one round more than the position, heap_down
-- one more than the entries, and the closing of idle connections one more than the list has. The
-- loops over the tree of a sorted set take two rounds more than the set has members, since a round
-- goes one level up or down; avl_offset, which goes up and then down, takes twice as many, and the
-- loop of do_zquery, which goes one member further in a round, takes two more than members. The
-- theorems below show that these are enough, but for avl_offset and do_zquery.
--
-- Pointers. A pointer to a connection is its descriptor, and its node in the idle list is the
-- descriptor and one, with 0 for the head. A pointer to an entry is a number, and its field
-- heap_idx is the value that the timer heap keeps for it. A pointer to a node of a tree is a
-- number, with 0 for NULL, and a member of a sorted set has one number for its node in the tree,
-- its node in the hash table and itself. A link that the code writes through a pointer to a
-- pointer (`*from`) is given by the parent and the side.
--
-- Threads. What a thread of the pool does between taking and giving back the mutex is one step;
-- pthread_cond_signal wakes one waiting thread, and a wait may also end on its own (WakeStep),
-- which no worker can count on.
--
-- Not modelled: the sockets and their set-up (server.cpp, client.cpp) and messages to the terminal
-- (lib/err_pack.cpp, lib/debug.cpp). str2dbl and str2int, which call the C library, and the
-- comparison of doubles are parameters. For avl_offset, the loop over the expired keys and the
-- commands on sorted sets there are definitions and no theorem.
pub mod Prelude
pub mod Bytes
pub mod Buffer
pub mod Message
pub mod Request
pub mod Reply
pub mod Response
pub mod Server
pub mod KeyValue
pub mod Client
pub mod App
pub mod Conn
pub mod HashTable
pub mod Heap
pub mod Avl
pub mod Zset
pub mod ThreadPool
pub mod IdleList
mod Tests
