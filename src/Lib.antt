-- ===== src/Lib.antt =====
-- Hydra, a microkernel for 64-bit RISC-V written in C: its kernel modelled function by function.
--
-- The parts and how they interact. The heap (kernal/mm.c) hands out memory blocks. The scheduler
-- (kernal/sched.c with the switch of kernal/switch_riscv.s) keeps a table of eight tasks and gives the
-- processor to the next ready one in turn when a task yields, exits or a timer ticks. Message passing
-- (kernal/ipc.c) moves messages of up to 256 bytes between tasks, from a pool of slots that are linked
-- into one free list or into the queue of a task; it reads `current_task` of the scheduler. The serial
-- driver (kernal/uart.c) buffers input bytes in a ring. The network driver (kernal/net_driver.c) keeps 32
-- packets in a free list and a queue of received ones, which a system call reads. The bullet server
-- (server/bullet.c) is a task that keeps a table of migration requests and answers the messages about
-- them. The network server (server/net_srv.c) is a task that keeps a table of sockets, answers the
-- messages about them and puts received packets into their buffers. The dispatcher (kernal/syscall.c)
-- gives a task's system calls to these parts, and the trap handler (kernal/timer.c) lets the timer drive
-- the scheduler and the serial line its driver. The socket library
-- (lib/libnet/socket.c) keeps a program's table of sockets and passes their data to the network server.
-- The C library (lib/libc) has the functions on strings, byte arrays, numbers, memory and formatted output,
-- and libhydra (lib/libhydra) wraps the system calls for programs. `kmain` (kernal/main.c) starts all
-- parts of the kernel in turn, creates the servers and reads commands from the serial line; kernal/printk.c
-- writes the kernel's output.
--
-- Which file models which part. A C function keeps its name; a part of one that is a definition of its
-- own says so. Pointers are natural numbers with 0 for null, memory is a function from addresses, and a
-- function that changes global variables takes and returns the record that holds them.
--   Prelude: shared notation, `int` as an integer, lists, memory and linked chains, byte copies.
--   Mm: kernal/mm.c. Mm/Cells is its abstract view, cells that tile the heap; Mm/Search, Mm/Alloc and
--     Mm/Kmalloc are about `kmalloc`, Mm/Free, Mm/Join and Mm/Kfree about `kfree`, Mm/Boot about the rest.
--   Ipc: kernal/ipc.c. Ipc/Queues is its abstract view, FIFO queues of packets; Ipc/Sent and Ipc/Send
--     are about `send_message`, Ipc/Received and Ipc/Recv about `recv_message`, Ipc/Calls about calls with
--     any arguments. Ipc/Start is `ipc_init`, Ipc/Slots and Ipc/Boot are about the pool that it builds.
--     Ipc/Status has the status reports, Ipc/Conserved and Ipc/Reports are about what they count.
--   Sched: kernal/sched.c, and SYS_EXIT of kernal/syscall.c. Sched/Search is about the search for the
--     next task, Sched/Inv and Sched/Calls about the invariant, Sched/Run about runs of calls,
--     Sched/Isolation about the registers of a task, Sched/Boot about start-up, Sched/Fair about how long a
--     ready task waits.
--   Uart: kernal/uart.c. Uart/Ring is the buffer against a queue.
--   Net: kernal/net_driver.c, with SYS_NET_SEND and SYS_NET_RECV of kernal/syscall.c and
--     `net_is_packet_available` of lib/libnet/net_util.c. Net/Pool and Net/Receive are about its lists,
--     Net/Traffic about its entry points, Net/Boot and Net/Runs about runs from `net_init` on, Net/Stats
--     about the lengths it counts.
--   Socket: lib/libnet/socket.c. Socket/Table is about its table, Socket/Order about byte order;
--     Socket/Inet has the functions on addresses as strings, and Socket/Parts is about them.
--   Libc: lib/libc/string.c. Libc/Memory, Libc/Strings and Libc/Copies are about its functions.
--     Libc/Stdlib is lib/libc/stdlib.c; Libc/Digits, Libc/Decimal and Libc/Bases are about its conversions of
--     numbers, Libc/Calloc about `calloc`. Libc/Stdio is lib/libc/stdio.c; Libc/Format is about the buffer of
--     `printf`, Libc/Room about `printf` and `sprintf` and about what is written.
--   Hydra: lib/libhydra/syscall_user.c and lib/libhydra/ipc.c. Hydra/Requests is about its messages.
--     Hydra/Console has the wrappers for input and output of syscall_user.c, Hydra/Clients is
--     lib/libhydra/net_client.c and lib/libhydra/bullet_client.c, Hydra/Capability is
--     lib/libhydra/capability.c; Hydra/Refused and Hydra/Rights are about them.
--   NetServer: server/net_srv.c, its socket table. NetServer/Rx has the receive buffers and the routing of
--     packets, NetServer/Handler the messages and the main loop, NetServer/Clients the client functions.
--     NetServer/Buffer and NetServer/Taking are about the buffers, NetServer/Ids, NetServer/Edits,
--     NetServer/Boot and NetServer/Rounds about the table, NetServer/Messages about the messages.
--   Kernel: kernal/syscall.c, the dispatcher over the kernel's parts. Kernel/Calls is about all calls, Kernel/Frame about the memory that they write,
--     Kernel/Messages about a message from one task to another.
--   Trap: kernal/timer.c. Trap/Handler is about its trap handler.
--   Main: kernal/main.c. Main/Boot is about the state that `kmain` starts the kernel in, Main/Runs about runs of
--     its main loop with system calls and interrupts in any order, Main/Idle about the loop without interrupts.
--   Varargs: the variable arguments of the two printing files.
--   Printk: kernal/printk.c. Printk/Numbers is about `print_num`, Printk/Output about `printk`.
--   Sender: apps/image_sender.c. Sender/Chunks is about its loops that send data, Sender/Pattern about its test
--     pattern.
--   Raytracer: apps/raytracer/raytracer.c, with the arithmetic of raytracer.h in Fixed. Raytracer/Trace and Raytracer/Shade are
--     about rays and colours, Raytracer/Render has the image, Raytracer/Render/Ppm is about its file.
--   Retry: the loop with which the client functions of both servers send.
--   Bullet: server/bullet.c. Bullet/Table is about its request table, Bullet/Rounds about its main loop,
--     Bullet/Clients about its client functions.
--   Servers: server/server_mgmt.c. Servers/Started is about `start_servers`.
--   Netlib: lib/libnet/net_send.c, lib/libnet/net_recv.c and lib/libnet/lwip_hooks.c. Netlib/Drain is about
--     the packets that they take.
-- Each component's Tests module applies its theorems at small inputs.
--
-- Bounds and fuel. `int` values that the program tests for a sign are integers; counters that it only
-- keeps between 0 and a bound are natural numbers, and the counters of traps, packet interrupts and socket numbers
-- are the 32 bits of
-- an `int`. `unsigned int` arithmetic of the heap wraps at 2^32
-- as written. The walks over memory take fuel, which the theorems about the heap only need to exceed the
-- number of blocks; a heap of 512 KB has fewer than 32769. The search of `schedule` takes `num_tasks` as
-- its fuel, and a theorem shows that this is enough where `current_task` is below it. A loop over a string takes fuel, which exceeds the length of the
-- string where a theorem says that it ends.
--
-- Not modelled. Log output, and counters that only feed it. What clients write into heap blocks: the
-- headers change only by the heap's own functions. Device registers, which are the environment: what the
-- network driver reads of them is an argument. The assembly of the start-up code; the demonstrations of
-- server/server_mgmt.c, which call the servers' client functions and print; and the demonstrations and test programs of
-- apps/, which print. What the test programs of apps/ do is an argument of the main loop.
pub mod Bullet
pub mod Fixed
pub mod Hydra
pub mod Ipc
pub mod Kernel
pub mod Libc
pub mod Main
pub mod Mm
pub mod Net
pub mod NetServer
pub mod Netlib
pub mod Prelude
pub mod Printk
pub mod Raytracer
pub mod Retry
pub mod Sched
pub mod Sender
pub mod Servers
pub mod Socket
pub mod Trap
pub mod Uart
pub mod Varargs
