-- ===== src/Lib.antt =====
-- The alarm transport, the connection's buffers, the record store, the timers and the cache of the
-- distributed monitoring system TLSS.
--
-- Parts and how they interact. A monitor agent encodes an alarm as a frame
-- (src/monitor/alarm_protocol.cpp) and sends it over TCP; the collector feeds the bytes of each
-- receive call to a stream decoder (src/monitor/alarm_stream_decoder.cpp), which asks the codec for
-- the size of a frame from its header and decodes a frame when it is complete. A connection sends
-- what it is given through a write scheduler (src/common/net/write_scheduler.cpp): a queue of memory
-- and of files under limits, worked off when the socket is writable; what it receives it reads into
-- a growing buffer (src/common/net/buffer.cpp). The monitoring engine keeps the last value of each
-- key in a store (src/monitor/monitor_store.cpp), where a change may wait for its durable
-- preparation, and sends changed records as datagrams (src/monitor/monitor_wire.cpp); policies
-- (src/monitor/monitor_policy.cpp) turn samples into alerts and averages, and its event loop runs
-- timers (src/monitor/timer_manager.cpp) whose callbacks stand in a registry. The file service keeps
-- metadata in an adaptive replacement cache (inc/common/cache/arc_cache.h).
--
-- Files. Base: native numbers, Boolean tests, lists and exclusive or, for all parts.
--   AlarmProtocol: Types, Offset, Fields, Checksum and Frame are the codec of
--   inc/monitor/alarm_protocol.h and src/monitor/alarm_protocol.cpp; the other files are its laws.
--   AlarmStream: Decoder is the class of inc/monitor/alarm_stream_decoder.h and its functions feed,
--   finish and reset; Spec is a decoder that reads one byte at a time, Refine and Rounds relate
--   the two, Feed and Wire are about splits of the input and encoded frames, Invariant and Total
--   about the states that are reached.
--   WriteScheduler: Types is the state of inc/common/net/write_scheduler.h, Queue admission,
--   completion, cancellation and read results, Writable the round of writing; Accounts, Balance and
--   Round are about the counters, Owed, Once and RoundOnce about the callbacks, Trace about runs.
--   MonitorStore: Data is inc/monitor/monitor_data.h, Records the std::map as it is used, Store the
--   operations of src/monitor/monitor_store.cpp; KeyOrder, Lookup, Update, Sorted, Query
--   and Reports are laws.
--   MonitorPolicy: Policy is src/monitor/monitor_policy.cpp, Edges is about what a feed reports,
--   Duration about the policy of duration, Window about the sum of the sliding window.
--   MonitorWire: Types, Time, V1, V2 and Codec are src/monitor/monitor_wire.cpp; V2Layout, V2Header,
--   V2Roundtrip and V1Roundtrip are about the bytes of a record and back, Size about their number.
--   NetBuffer: Buffer is the class of inc/common/net/buffer.h and src/common/net/buffer.cpp; Content,
--   Refine and Transfers follow the readable bytes and Spare the room behind them; Spec is the
--   abstract queue, which Queue proves that the buffer implements.
--   TimerManager: Types and Manager are inc/monitor/timer_types.h, src/monitor/timer_manager.cpp and
--   the set of src/monitor/callback_registry.cpp; Order, Timeout, Adding, Served,
--   Turn and Checking are laws.
--   ArcCache: Node, Lru, Lfu, Cache and Slices are inc/common/cache/arc_node.h, arc_lru.h, arc_lfu.h
--   and arc_cache.h. Content weighs the nodes of a list; Recency and Resident are about the LRU part,
--   Buckets, Frequency, Rising, Evictions, Frequent and FrequentReads about the LFU part, Adapting,
--   Writing, Reading and History about both, Sharing, Routing and Sliced about the slices.
--
-- How code corresponds to definitions. A class is a record of its fields and an operation a function
-- of the state that returns the new state with its result. In the write scheduler an operation also
-- returns the calls that it makes (of hooks, of readers, of the socket, of the event loop to post a
-- callback) in order; the socket and the external reader are an environment, whose answers are
-- arbitrary. Integers are native numbers: the fields of a frame keep their byte width, the CRC its
-- 32 bits.
--
-- Fuel. The loop of feed takes fuel, one round for each byte of the input; a round that goes on has
-- consumed a byte, so that no run ends for lack of it. The loop of on_writable is
-- structural in the 64 steps that the code allows. The loop of TimerManager::check takes fuel; the
-- nanoseconds from the deadlines to the end of the call, and one, are enough while no deadline
-- overflows the clock. The loops of decrease_capacity take as many rounds as there are nodes.
--
-- Allocations that fail are an argument: a Boolean for the codec, an oracle by round for feed;
-- in the timers each one is an argument, with the readings of the clock and the answers of the wakeup
-- pipe; the other parts take them to succeed. The answer of readv is a function of the room it is given.
--
-- Not modelled: in the write scheduler the preparation of a file (fcntl, fstat)
-- and the signal mask around sendfile; threads, since each part runs in one event loop or under
-- one lock; hooks that call back into the scheduler, which its owner defers to the event loop;
-- the event loop itself, which runs the callbacks that are posted to it;
-- the activation of callbacks, their worker threads and their statistics;
-- all other parts of the repository, which include system calls, databases and the command line.
pub mod Base
pub mod AlarmProtocol
pub mod AlarmStream
pub mod WriteScheduler
pub mod MonitorStore
pub mod MonitorPolicy
pub mod MonitorWire
pub mod NetBuffer
pub mod TimerManager
pub mod ArcCache
