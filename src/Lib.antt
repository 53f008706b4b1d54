-- ===== src/Lib.antt =====
-- tinytcp, a TCP/IP stack: a model of its core with proofs.
--
-- The parts and the files that model them (paths are from the repository's root):
-- * Ring.antt, src/lock_free_ring_queue.h: `LockFreeRingQueue`, the queue that every other part hands
--   pointers through. `push` and `pop` are the calls of one thread, run without interruption;
--   Ring/Threads.antt has the same calls as steps of single atomic accesses, of any number of
--   producers and consumers, on sequentially consistent memory.
-- * Log.antt and its children, src/log.cc: levels, and patterns with the items they are cut into;
--   `Log.Logger` has the loggers, their appenders and their manager in stores indexed by pointers,
--   `Log.Define` the setting "logs" with its conversions and the listener that a change of it calls.
-- * Config.antt and its children, src/config.h and src/config.cc: conversions of containers, settings
--   with their listeners, and what a document sets. yaml-cpp is the parameter `Yaml`, a type of nodes
--   with its functions, and `IsYaml` is what is relied on; `Config.Sample` meets it.
-- * Memblock.antt, src/net/memblock.cc: `MemBlock`, a pool of equal blocks on that queue.
-- * Pkt.antt and its children, src/net/pktbuf.cc: blocks, packets and their manager. The blocks lie
--   in a store indexed by pointers, so that sharing is visible; `Pkt.Shape` and `Pkt.Resize` have the
--   operations that change a packet's list of blocks, `Pkt.Access` those that move its cursor.
-- * Timer.antt and its children, src/timer.cc: the ordered set of timers and their expiry; the clock
--   is an argument.
-- * Endian.antt, src/endiantool.h: the byte swaps. Ipaddr.antt, src/net/ipaddr.cc and
--   `ipaddr_from_str` of src/net/netif.cc: IPv4 addresses and their text.
-- * Stack.antt and its children, src/net/protocol_stack.cc, netif.cc, network.cc, net.cc and arp.cc:
--   messages, the queues of an interface, the link layer and the worker thread, on one record of
--   what the threads share. Each handler is the call of one thread. `Stack.Pcap` has a round of the
--   threads that receive and send, `recv_func` and `send_func` of src/net/network.cc; what libpcap
--   gives and takes are its arguments and its result. `Stack.Open` has `netif_open` with the classes'
--   `open` and `close`; the functions that open a device and ask for its mode are parameters.
-- * NetErr.antt, src/net/net_err.h: the error codes, and `Run`, the outcome of a run: a value, a
--   fault (undefined behaviour or a failed assertion), or a loop that was given too few rounds.
-- * Fifo.antt is the specification of the queue; Base.antt has what all parts share.
--
-- Machine words are natural numbers with the wrap-around written out. The loops of `Pkt.Access` run
-- on one round more than they have bytes to move, which is enough because no block of a well-formed
-- packet is empty; the other loops run over their list, or on a bound that stands beside them.
--
-- Not modelled: orders of memory weaker than sequential consistency; the rest of the loops
-- around libpcap and the wait of the timer thread, which are calls of libraries and of the system;
-- unordered containers of settings, locks and the platform layer.
pub mod Base
pub mod Fifo
pub mod Ring
pub mod Memblock
pub mod NetErr
pub mod Pkt
pub mod Timer
pub mod Endian
pub mod Ipaddr
pub mod Stack
pub mod Log
pub mod Config
