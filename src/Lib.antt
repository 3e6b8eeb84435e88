-- ===== src/Lib.antt =====
-- UCP, a file transfer over UDP (src/ucp_client.c, src/ucp_server.c). The client splits a file into
-- parts, cuts each part into data packets, sends them by UDP and keeps them in a window until the
-- server acknowledges them by TCP. The server saves the segments and hands the sequence numbers to a
-- sequencer, which knows what is missing and when the part is complete.
--
-- Common: shared names; words as numbers with the wrap-around written out, `&` and `|` as arithmetic,
--   byte buffers whose accesses out of bounds are faults, lists measured by native numbers.
-- LinkedList: src/linked_list.c, used by all other parts. LinkedList/Memory is an explicit memory, a
--   map for each field of `LinkedListElem`; LinkedList/Ops has one command for each function, its loops
--   on fuel. The address that `malloc` returns is an argument. `IsRing m l xs` relates a memory to the
--   abstract list of elements; the theorems say how each function changes that list, and that the rest
--   of the memory stays. One round more than the list has elements is enough fuel. LinkedList/Pair has
--   two lists in one memory.
-- Packet: src/ucp_packet.c. Types, Init, Encode and Decode follow the source's functions; a buffer is a
--   list of bytes with its C length beside it. The union's members are kept side by side, since the
--   program reads only the one that the type names. `size_t` has 64 bits.
-- Sequencer: src/sequencer.c, twice. Sequencer/Ops has each function on the list of the ranges; the
--   arithmetic on `uint32_t` wraps. Numbers below UINT32_MAX are covered by its theorems: UINT32_MAX
--   itself is the mark of an unknown last number. Sequencer/Loops has each function on the linked list in
--   memory, where Sequencer/Store adds the allocated ranges and the sequencer's two numbers, and an access
--   through NULL or to what has been freed is a fault; `Stores seq s l` says that the store `s` holds the
--   sequencer `l` at `seq`. One round more than there are ranges is enough fuel, and for the loop of
--   sequencer_iterate_missing_segments one more than the largest number.
-- Files: src/file_io.c. Files/Stream has the functions of the C library that it uses, on a stream of
--   bytes, a position and the end-of-file indicator; how much of a write is accepted is an argument.
--   Files/Ops has the functions; the theorems read a part to its end, where one round more than it has
--   bytes is enough, and save the packets in any order. Files/Disk has a directory, a map
--   from names to contents. Files/Parts has the splitting of a file and the merging of files; what the
--   shell does with a command is a parameter.
-- Server: src/ucp_server.c. Server/Queue is the queue from the receiving to the sequencing thread, a
--   linked list in the memory of LinkedList whose objects are allocated items; each of its operations
--   is one step, since both hold a mutex throughout. Server/Sequencing is the loop of the sequencing
--   thread, on the results of its calls of sequencing_queue_pop. Server/Receiving is the body of the
--   receiving thread's loop, Server/Control what the server sends by TCP, Server/Answering the way of
--   it to the client's on_ack_received, and Server/Threads the two threads as interleaved steps on
--   their queue. Server/Sequencing and Server/Threads have the queue as the list of its items, which
--   Server/Fifo relates to the linked list. Server/Thread is sequencing_thread from sequencer_init to
--   sequencer_destroy with the sequencer in memory. Server/Setup is what main does with the first datagram.
-- Client: src/ucp_client.c. Client/Windows is the pending and the in-flight window, two linked lists of
--   pointers to packets: the next packet to send, its sending, and the answers to it. `IsClient c a b ps
--   qs` says that the windows at `a` and `b` hold the packets `ps` and `qs`. Client/Loop is the loop of
--   block_thread, and Client/Protocol the same on lists of packets; one round of search more than there
--   are packets in flight and rounds to come is enough. Client/Statistics has the loops of
--   report_statistics that find the span of all threads' times. Client/Main is main, with the
--   contexts that it makes for the threads; what a thread does with its address and name is a parameter.
-- Tcp: src/tcp_socket.c. Tcp/Server has the functions of the server that polls its connections: what the
--   system calls return is an argument, what they are asked and the calls of `on_rx` are events. A
--   descriptor set is a map, with FD_SETSIZE descriptors; two rounds more than these are enough.
--   Tcp/Client has the client's functions; `to_ssize` keeps a `size_t` in a
--   `ssize_t`.
-- Udp: src/udp_socket.c in Udp/Sockets, where what the system calls return is an argument, and in
--   Udp/Opening the two ends of the first datagram: block_thread of the client from its socket to that
--   datagram, and main of the server from its socket to the connection back. The network is a map from
--   the address that a socket is bound to, to the datagram that arrives there.
--
-- Not modelled: ucp_packet_free (it frees memory), the commands split and cat themselves, read errors, how
-- the threads of the client share the windows, how main of the server starts and joins its threads,
-- and printing.
pub mod Client
pub mod Common
pub mod Files
pub mod LinkedList
pub mod Packet
pub mod Sequencer
pub mod Server
pub mod Tcp
pub mod Udp
