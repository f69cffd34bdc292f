-- ===== src/Lib.antt =====
-- DuoDuo is a C++ network library: a reactor with buffered TCP connections, an HTTP server on top
-- of it, and a pooled allocator (after jemalloc) for the buffers of the connections.
--
-- Parts and files. A definition has the name of the function that it models, in lower case with
-- underscores; a record has the fields of the class.
-- - Base: names of the libraries, Boolean tests, lists, and the bits of words.
-- - Pool.MathUtils (buffer/MathUtils.h): the integer logarithm.
-- - Pool.SizeClass (buffer/SizeClass.h, buffer/SizeClass.cpp): the tables of size classes that the
--   constructor fills, and the lookups of a size or of a number of pages in them.
-- - Pool.Handle (buffer/PoolChunk.cpp): the 64-bit handle of a run or of an element of one.
-- - Pool.BestFitQueue, Pool.Chunk (buffer/BestFitQueue.h, buffer/PoolChunk.cpp): a chunk of pages,
--   its map and queues of available runs, the runs and subpages it hands out and takes back. A
--   `Layout` is the row of its runs, available or in use. `ArenaSizes` is what a chunk asks of the
--   tables of sizes, and Pool.Chunk.Pooled gives it those of Pool.SizeClass.
-- - Pool.ChunkList (buffer/PoolChunkList.cpp, and allocateNormal of buffer/PoolArena.cpp): the lists
--   of the arena's chunks by usage, and how a chunk moves between them.
-- - Pool.ThreadCache (buffer/PoolThreadCache.cpp, and free of buffer/PoolArena.cpp): the runs and
--   elements that a thread keeps, by size, before they go back to the arena.
-- - Pool.Subpage (buffer/PoolSubpage.cpp): a run cut into elements, its bitmap, and the list of the
--   subpages of a size. An allocated element is named by a handle of Pool.Handle.
-- - Pool.Allocator (buffer/PoolByteBufAllocator.cpp): the sizes that arenas are made with, and the
--   arena of a thread.
-- - Pool.ByteBuf (buffer/PoolByteBuf.cpp, and calculateNewCapacity of
--   buffer/PoolByteBufAllocator.cpp): a buffer with its reader and writer index in the memory of a
--   chunk. Where the arena puts a buffer that grows out of its place is the record `Arena`.
-- - Http.Bytes, Http.Request, Http.Context, Http.Response, Http.Server (http/): the bytes that a
--   connection has received, requests, the incremental parser, responses, and the handlers that
--   join them. The application's callback is a parameter.
-- - Net.Channel, Net.Poller (Channel.cpp, base/EpollPoller.cpp): the events that a channel asks for
--   and the epoll_ctl calls that follow.
-- - Net.Connection (TcpConnection.cpp): the states of a connection and its output. A step is one
--   handler or call in the loop's thread, with the result of the system call it makes.
-- - Net.Connector (Connector.cpp): attempts to connect, with the outcome of each system call, and the
--   delays between them. The loop's timer and its queue are steps that come later.
-- - Net.LoopPool (EventLoopThreadPool.cpp): the loops of a pool and the round robin over them.
-- - Net.Server (TcpServer.cpp): the set of connections of a server, over Net.Connection and
--   Net.LoopPool. What one loop queues for another is a step that comes later.
-- - Net.MpscQueue (MpscQueue.h): the queue of many producers and one consumer, by its atomic steps.
-- - Net.EventLoop (EventLoop.cpp): the functions queued for a loop and its wake-up descriptor. What
--   another thread does in queueInLoop is two steps, between any steps of the loop.
-- - Timer.DelayQueue (timer/delay_queue/DelayQueue.h): the queue of the buckets by their times.
-- - Timer.Time, Timer.Wheel (timer/delay_queue/TimeEntry.h, timer/TimingWheel.cc,
--   timer/TimerTaskList.cc): points in time, the wheels, and the flush of a bucket, which gives its
--   entries back to the wheels.
--
-- Conventions. A failed assertion or an exception is `none`, or `asserted` for the parser. Numbers
-- are natural numbers; a word that can overflow is written modulo 2^32 or 2^64.
--
-- Fuel. The parser's loop has one round more than there are bytes, and each round but the last
-- takes a line of two bytes or more. The loop that doubles a capacity has as many rounds as the
-- bytes that are wanted. The scan of a bitmap has 64 rounds a word, and one round a word. The
-- decimal digits have one round more than the number. The loops that join the runs of a chunk have
-- two rounds more than the chunk has pages, those that size the run of a subpage one more than an
-- element has bytes, and a chunk passes six lists at most.
--
-- Not modelled: locks, and threads but for the queue of many producers, the event loop and the set
-- of a server (every other handler runs in its loop's thread), the system calls, the rest of the
-- arena, and the acceptor. The memory of a buffer is as the arena gives it without a pointer left
-- over from another buffer.
pub mod Base
pub mod Pool
pub mod Http
pub mod Net
pub mod Timer
