-- ===== src/Lib.antt =====
-- A verification library of the C++ study repository: containers (basic/STL), a task manager
-- (basic/final2), a shared pointer (basic/type_ptr), a logger (basic/final1), the sessions and the
-- message queue of an asynchronous message server (asio/Async), the session of its coroutine
-- version (asio/Coroutine), HTTP and websocket connections (asio/http),
-- a JSON parser (basic/jsontest), template metaprograms (basic/model), and matrices with a neural network and a
-- perceptron (tsoding). The parts are independent programs; what they
-- share here is in Prelude.
--
-- Prelude: library names, tests on numbers, lists, signed integers, sorted lists, and `Run`, a result
--   or a fault (an exception of the source, an access outside an allocation or through null, a
--   failed assertion). Prelude/Options sequences results that may be missing.
-- Deque: basic/STL/mydeque.h, class `Deque`. `buffer` is the allocation, `size_t` arithmetic wraps at
--   2 ^ 64, and `T()` is a parameter. Deque/Inv relates a deque to the list that it holds, Ops
--   and Ends are the operations, and Script runs whole sequences of calls.
-- Async: asio/Async/Node.h, Const.h and CSession.cpp. Host is the byte order, a parameter. Node is
--   `MsgNode`, `RecvNode` and `SendNode`; Read is `CSession::HandleRead` as a function from the state
--   of the session and the bytes of one read to the messages that it posts to `LogicSystem` and
--   what it does then. The socket gives at most MAX_LENGTH bytes at a time and any split of the
--   stream. The loop runs on fuel: the number of bytes and two more rounds, which is enough since
--   every round that goes on takes at least one byte.
--   Send is both `Send` functions and `HandleWrite`, with the buffers given to `async_write` as a list. Send
--   and the call backs come in any order, each as one step under `_send_lock`.
--   Logic is LogicSystem.cpp: the queue that sessions post to and the worker thread that empties it, as a
--   step relation with the places where the worker stands; a post needs the mutex, the destructor does
--   not take it. Logic/Pool is `GetIOService` of IOServicePool.cpp.
--   Server is CServer.cpp: the pending accepts and the map of sessions, with a session as its uuid, which
--   the generator does not give twice. `ClearSession` may come between `Start` and the insert of
--   `HandleAccept`; one insert or erase is one step, although no lock in the source makes it so.
-- Coroutine: asio/Coroutine/CSession.h and Msg.h, with the nodes and the wire format of Async. The
--   coroutine of `Start` runs on all bytes that a peer sends before it closes, with fuel of one
--   round more than there are bytes. `Send` and `HandleWrite` are split where they
--   give the lock back. `Coroutine/Refine` relates them to Async/Send. Coroutine/Server is Cserver.h, where
--   the sessions run on another thread than the accepts.
-- Http: asio/http/beasthttp.cpp. A body is the list of the pieces written to it. JSON, the clock and the text
--   of numbers are the parameter `Outside`. Connection has the call backs of `http_connection`.
-- Websocket: asio/http/Connection.h and ConnectionMgr.cpp. The call backs come in any order; each parameter
--   `msg` of `SendCallBack` is a buffer that is destroyed when the call returns.
-- Json: basic/jsontest/Jsontask.cpp. A view and an index are the text from the index on, with the index; `json[i]`
--   at the end of the view gives `past_end`. The fuel of `parse` bounds the nesting, and one more than the length of
--   the text is enough; each loop has one round more than there are characters. A `double` is its bits. A dictionary keeps
--   the order of insertion, which `unordered_map` does not promise. The regular expression and the readers of
--   numbers are the parameter `Outside`.
-- Templates: basic/model/Template_Meta/template.h. An instantiation that does not compile is `none`; `depth`
--   is the compiler's limit on nested instantiations.
-- Avl: basic/STL/AVLmap.h, class `AVLmap`, with numbers as keys. The tree is owned by one pointer at
--   each node, so that it is a data type here, and a null pointer is `leaf`. `getBalance` is compared
--   on natural numbers. `clear` and the destructor only free; `serchNode` and `get` call
--   functions that the class does not have.
-- Hash: basic/STL/hashmap.h, class `hashmap`. The hash, the equality of keys, and the load test (a
--   comparison of doubles) are parameters. Iter is the
--   iterator and Visit a loop over a map, with fuel of one round more than there are nodes.
-- Bst: basic/STL/mymap.h, class `mymap`, with numbers as keys. A pointer to a node is the node with what
--   stands around it, from which `parent` is read. Traverse is the iterator, whose run has fuel of
--   one step more than there are entries; Order is insert and find, Erase is erase.
-- LinkedList: basic/STL/myList.h, class `List`, on a heap from addresses to nodes, where null and freed
--   addresses are faults and no address is given out twice. Chain is the chain of links between the
--   sentinels, Writes the heaps of `insert` and `erase`, Edit what they do to the chain, Calls, Ends and
--   Script whole scripts of calls, and Walk the loops, with fuel of one round more than there are nodes.
-- SharedPtr: basic/type_ptr/simpleSharedPtr.h. Pointers are slots of a list, control blocks are counted in
--   a store, and a count of 0 stands for deleted memory, which no call may use. `int` counts do
--   not overflow here. Steps has one lemma per member, Life the runs of calls.
-- Log: basic/final1/log.h. Format is `formatMessage`, whose loop has fuel of one test more than the format
--   has characters, which is enough since every test that finds a placeholder skips it. Order is
--   `logQueue` with the worker that pops until the shutdown. The lock makes push, pop and
--   shutdown single steps; the time and the arguments as strings are parameters.
-- Matrix: tsoding/mechine_learning/Matrix.h. Floats are a type with operations and no law. `Network` is
--   `NetWork` with create, forward, cost, finite_diff, learn and back_prop. Sizes are assumed to fit
--   in an `int`. Random filling and output are left out.
-- Perceptron: tsoding/neural_network.cpp. A `Layer` is a matrix of 50 by 50. `rand()` and the comparisons
--   with `BIAS` are parameters. A width or height for which the last column or row overflows an `int` is a fault.
--   Saving to files, and the overflow of `int` for circles near its bounds, are left out.
-- Tasks: basic/final2/TaskManager.h, task.h, command.h and main.cpp. Characters are numbers; `file` is the
--   text of task.txt, which can always be opened. How numbers are written and read is a parameter.
--   An overflow of `nextId` is `none`. The log, the output, the sorted listing and negative ids in the file are
--   left out.
--
-- Not modelled: the threads, timers and sockets of asio, the accept loops of the HTTP and websocket servers,
-- the JSON call back, the logic system of the coroutine server, the logger of basic/final2 and
-- the demonstrations. JSON and Boost are libraries that the source only calls.
pub mod Prelude
pub mod Deque
pub mod Async
pub mod Avl
pub mod Hash
pub mod Bst
pub mod Matrix
pub mod Tasks
pub mod Perceptron
pub mod Coroutine
pub mod SharedPtr
pub mod Log
pub mod LinkedList
pub mod Http
pub mod Websocket
pub mod Templates
pub mod Json
