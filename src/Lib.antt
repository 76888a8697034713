-- ===== src/Lib.antt =====
-- Models of the C programs of the course on general-purpose operating systems, in
-- material-clases/.
--
-- The programs and the files that model them:
-- * material-clases/TP_Corregido, the assignment: `writer.c` sends typed lines and signals through
--   a FIFO, and `reader.c` writes the lines to log.txt and the signals to signals.txt.
--   TpCorregido/Writer.antt and TpCorregido/Reader.antt hold the functions of the two files under
--   their C names (`main`, `sig_handler`, `sigusr_handler`, `setup_signal`,
--   `check_and_write_msg`); the parts of `main` are `setup`, `round` (one pass of `while (1)`) and
--   `loop`. Writer/Buffers.antt and Reader/Buffers.antt hold what is computed in the char arrays.
--   TpCorregido/Spec.antt describes the two programs without arrays, TpCorregido/Protocol.antt the
--   messages, TpCorregido/Kernel.antt the terminal, the FIFO and the files. TpCorregido/Link runs
--   one program after the other over them, TpCorregido/Together both at once, and
--   TpCorregido/Interrupted.antt the loop of the Writer with signals between its calls.
-- * material-clases/TP, the first version of the assignment: Tp/Writer.antt and Tp/Reader.antt.
-- * material-clases/clase7/ejemplo-sem2/named.c and unnamed.c, ten producers and a spooler over a
--   ring of buffers: Spool.antt and Spool/Unnamed.antt.
-- * material-clases/clase6/practica_resolviendo, a TCP server with a pool of entries for its
--   threads, and its client: Practica/ClientData.antt (clientdata.c), Practica/Worker.antt
--   (`procesar_cliente`, its calls), Practica/Server.antt (the accept loop and the threads over the
--   pool), Practica/Connection.antt (the set-up, and the calls that one connection sees) and
--   Practica/Client.antt (cliente_tcp.c).
-- * material-clases/clase6/ejemplo-mutex, two counters with a mutex (main_ok.c) and without it
--   (main_incorrecto.c): Mutex/Ok.antt and Mutex/Incorrecto.antt.
-- * material-clases/clase7/ejemplo-msq, a server that gives out numbers over message queues, and
--   its client: Tokens.antt (server.c) and Tokens/Client.antt (client.c), with sprintf's text in
--   Tokens/Text.antt, the queues in Tokens/Kernel.antt and both programs at once in Tokens/Pair.
-- * material-clases/clase5/tcp, a TCP server that serves one client after the other, and its
--   client: Tcp.antt and Tcp/Client.antt, with its clients as a kernel in Tcp/Kernel.antt.
-- * material-clases/clase5/getaddr, clase5/unix, clase5/udp1 and clase5/udp2, a server and a client
--   each: Getaddr, Echo and Udp, in each Server.antt and Client.antt; the two programs of udp1 are
--   in Udp/First.antt. Tcp/Asking.antt holds what the clients of clase5/getaddr and of
--   clase6/practica_resolviendo share.
-- * material-clases/clase4/ejemplo-named-fifo, lines through a FIFO: NamedFifo/Writer.antt and
--   NamedFifo/Reader.antt.
-- * material-clases/clase3/ejemplo-pipes.c, a process and its child, in Pipes.antt, and
--   clase3/practica2.c, calls that a signal interrupts, in Children.antt.
-- * material-clases/clase7/ejemplo-sem/sem.c, a wait with a time limit: TimedWait.antt, with the
--   clock and the alarm in TimedWait/Alarmed.antt.
-- * material-clases/clase7/ejemplo-mmap-file/mmap.c, the capitals of a file: MappedFile.antt,
--   with its loop in MappedFile/Loop.antt.
-- Common.antt holds shared names and list lemmas, Memory.antt the functions of <string.h> on
-- arrays, Posix.antt the system calls, and Processes.antt two processes on one machine.
--
-- A sequential program is a tree of system calls (`Prog`): each node is a call with its
-- arguments, and goes on with any answer the kernel may give; `read` answers with the bytes it
-- stored, at most as many as were asked for. `run` evaluates a tree over a kernel. A char array
-- is the list of its bytes followed by `rest`, what lies in memory behind it; an access behind
-- both is undefined behaviour, `fault`. Where a program has one array of a fixed length, a
-- parameter is its content at the start. `while (1)` takes the number of its passes, and `done`
-- means that the loop still goes on; the number is an argument, so no bound is chosen. Casts to
-- `uint8_t` are written as `% 2 ^ 8`; the increment of the `long` in the token server is undefined
-- behaviour at 2^63, and that of the index in mmap.c at 2^31; other numbers are lengths and indices,
-- which fit an `int`. What the programs use of the C library is modelled as its documentation says:
-- `atoi` for texts without a minus sign whose value an `int` holds, `toupper` for a `char`, and the
-- text that `sprintf` makes of a number that is not negative.
--
-- Two sequential programs that run at once are two trees over a kernel that each sees by its own
-- part of the state and a shared one, a FIFO, a connection, two pipes, two message queues or
-- datagrams under way (Processes.antt). A call that has to wait has no answer. `Ends` says of
-- two such programs that every order of their calls, one after the other, leads to an end of the
-- given kind, without a state in which both wait; Processes/Schedules.antt ties it to schedules
-- of calls. A whole run is put together from steps: a call inside one process may be made at
-- once, and so may a call that the other process can neither prevent nor notice
-- (Processes/Orders.antt). `run_interrupted` evaluates a tree with signals between its calls,
-- whose handlers may be interrupted as well, and `run_blocking` (Posix/Blocking.antt) one with
-- signals in the calls that wait.
--
-- Concurrent programs with shared memory are step relations: a step is one access to shared
-- memory, or one call on a semaphore, by one thread, and every interleaving is a sequence of
-- steps. Three accesses are coarser: a whole string is put into a buffer in one step and printed
-- in one step, and so is the print index of unnamed.c, which only the spooler uses, counted on
-- and set back. A semaphore is its value, and `sem_wait` is a step that is possible while it is
-- positive; the names of the semaphores of named.c are not in use when it starts. The number of
-- producers is any `n`; the pool has the 100 entries of the code, and the mutex example its two
-- threads. An increment of a counter of main_incorrecto.c past 2^31 - 1 is undefined behaviour
-- and has no step; the counters of main_ok.c are natural numbers, so what it does behind
-- 2^31 - 1 increments is outside the model. A number that `accept` returns is any number.
--
-- What the kernel does is a model of POSIX's documentation: a FIFO keeps bytes in order without
-- boundaries and holds 65536 of them (a Writer that is run without a Reader is given room for all
-- it writes, as one has whose Reader keeps up), `write` takes all it is given, files opened with
-- O_WRONLY are written from their beginning on, and a terminal gives one line at a time. Pipes and message queues are told
-- apart by descriptors and names, and a call on a socket is refused where the descriptor is not
-- that of the socket. The FIFO of the assignment exists when its two programs run at once, and
-- the `open` of its Reader returns before the Writer's, while its first `read` waits for the
-- Writer. A server listens, or its socket is bound, when its client starts. A datagram is not
-- lost. In TimedWait no time passes but in the wait, and in Children a signal comes as soon as a
-- call waits.
--
-- Not modelled: the texts that `strerror` gives, the failing calls of the programs that are step
-- relations (each ends the process), a call that a signal interrupts with EINTR in the assignment,
-- whose handlers are installed with SA_RESTART, tests of addresses that are constants, and the other
-- examples of the lessons, which show one call each and which the inventory lists.
pub mod Common
pub mod Memory
pub mod Posix
pub mod Processes
pub mod TpCorregido
pub mod Tp
pub mod Spool
pub mod Practica
pub mod Mutex
pub mod Tokens
pub mod Tcp
pub mod Echo
pub mod Getaddr
pub mod TimedWait
pub mod Udp
pub mod MappedFile
pub mod NamedFifo
pub mod Pipes
pub mod Children
