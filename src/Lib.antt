-- ===== src/Lib.antt =====
-- A model of the AODV kernel module (fbaodv) in C, and proofs about it.
--
-- The module keeps its state in linked lists: the routing table (aodv_route.c), the traffic sources
-- with their kernel route tables (src_list.c), the broken links (brk_list.c), the gateways
-- (gw_list.c), the one-hop and two-hop neighbours (aodv_neigh.c, aodv_neigh_2h.c), the traffic
-- classes (tos.c) and the timers (timer_queue.c). Packets that wait for a route stand in a queue of
-- their own (packet_queue.c). Two hooks see the packets of the device (packet_in.c, packet_out.c); a
-- thread serves the tasks that they and the timers bring (aodv_thread.c). Handlers of packets and
-- timers read and write the lists, ask the kernel for routes and rules, and send messages.
--
-- Correspondence:
--   Params, Message, Task   the constants, packets and tasks of aodv.h; create_task and
--                           is_control_task of task_queue.c
--   Kernel                  the time tests and byte orders that the module takes from Linux
--   TaskQueue               the queues of task_queue.c, on a heap of entries with their pointers;
--                           Priority is what they promise, and Service the way of a task from its
--                           creation to the thread of aodv_thread.c
--   TimerQueue              timer_queue.c on the list of timers
--   RouteTable, Routing     aodv_route.c: the list and its searches; the operations on a node
--   SrcList, Sources        src_list.c: the list; the operations that set policy rules
--   BrkList, GwList         brk_list.c, gw_list.c
--   Neighs                  the lists of aodv_neigh.c and aodv_neigh_2h.c
--   Flows, Metric           tos.c with compute_load; route_alg.c
--   Node                    the global variables as one record, and handlers as functions of it
--   Ett, Etx                the estimations of probe_ett.c; the loads and the ETX of hello.c
--   Addresses               utils.c; the text of addresses in Addresses/Text
--   PacketQueue             packet_queue.c on the list of waiting packets
--   Handlers                rreq.c, rrep.c, rerr.c, rcvp.c, st_rreq.c, hello.c and probe_ett.c, each in
--                           a module of its own, and aodv_neigh.c with aodv_neigh_2h.c (Neighbours)
--   Thread                  the switch of aodv_thread.c
--   Hooks                   packet_in.c with insert_task of task_queue.c, and packet_out.c
--   Rpdb                    the messages of rpdb.c as bytes, and how the kernel reads them
--   Sockets                 the functions of socket.c that send, on a socket with its TTL and flag
--   Setup                   how fbaodv_protocol.c and aodv_dev.c load and unload the module
--   Invariant               the form of the tables, and the operations and handlers that keep it
--   Base                    shared lists, Boolean tests, and the loops over sorted lists
--   Tests                   the theorems at concrete inputs
--
-- A linked list, but those of the tasks, is the list of its entries from the head; `prev` and
-- `next` are its order. Entries that handlers hold a pointer to carry their address. A handler is
-- a function of the state of a node that gives `none` at a fault: a read through NULL, a read of
-- freed memory, a division by zero. What kmalloc gives, whether requests to rtnetlink succeed, and
-- the time are parts of the state that the environment sets; the time stands still while one
-- handler runs. One entry of the routing table is freed while it stands there, where the kernel
-- refuses the route to a new neighbour: a variable of the state keeps that, and what the model says
-- of the table ends with the step that did it. Numbers are kept within their C types by the remainders that the words wrap at.
-- Locks, debug output and the printing for /proc are left out. Each loop is a recursion on the
-- list that it walks, or on the number of rounds that the source fixes. Four loops take fuel: that
-- over ipq_dequeue, one round more than the queue has packets; that of cleanup_task_queue, which
-- frees an entry in each round, one more than the heap has entries; that of the thread over the
-- tasks, one round more than the queue has; and that of calculate_prefix, 33 rounds for 32 bits.
--
-- Not modelled: the binding of sockets, the registration of hooks and of the entries of /proc
-- (input and output of the kernel), the outer loop of the thread, which sleeps until it is woken,
-- and the freeing of the lists of neighbours and gateways when the module is unloaded.
pub mod Base
pub mod Kernel
pub mod Params
pub mod Message
pub mod Task
pub mod TaskQueue
pub mod TimerQueue
pub mod RouteTable
pub mod BrkList
pub mod GwList
pub mod Flows
pub mod Ett
pub mod Etx
pub mod SrcList
pub mod Addresses
pub mod PacketQueue
pub mod Neighs
pub mod Metric
pub mod Node
pub mod Sources
pub mod Routing
pub mod Handlers
pub mod Hooks
pub mod Thread
pub mod Invariant
pub mod Rpdb
pub mod Sockets
pub mod Setup
pub mod Tests
