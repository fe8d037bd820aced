-- ===== src/Lib.antt =====
-- A planner of user threads (SUSE), a memory manager (MUSE) and a file system (SAC) that serve
-- programs over sockets. This library models the planner whole, the wire formats, the blocks of
-- the file system, and of the memory manager the frames, the replacement and the heap, in the state
-- that the C code keeps.
--
-- Base: the shared names, Boolean tests, lists, and the integers of C over the native numbers. A
-- signed overflow is undefined in C; a program that has one is outside the model.
-- Commons: what the planner takes from other code, as a parameter: the lists of the commons
-- library with their documented results, `double` with no law, the clock, `close` and `atoi`.
-- Suse: planificador/suse.c. Suse/State is planificador/suse.h and the structs of
-- utils_suse/libraries.h: one record holds the globals, the objects at each pointer, which mutexes
-- are held, and what was sent. Suse/Run is the language of commands over it: a command returns,
-- faults (a dereference of NULL or of a freed object), or blocks (a lock of a mutex that is held,
-- or a wait on a semaphore at zero). Suse/Transitions has the moves between the states of a thread
-- (`nuevo_a_listo`, `listo_a_exit`, …), Suse/Scheduler the SJF planner and the creation of threads,
-- Suse/Joins `join` and `desjoinear`, Suse/Close `close_tid`, Suse/Semaphores wait and signal,
-- Suse/Metrics the numbers of the log, Suse/Requests the handlers and `handle_conection_suse`.
-- Requests arrive as a list, so a connection ends; one connection runs at a time, and no thread of
-- the server runs between two commands of another. The functions keep the names of the source; with
-- capitals made small (`ULT_create` is `ult_create`).
-- Suse/Logic, Suse/Eval and Suse/Frame carry the proofs: conditions before and after a command,
-- evaluation step by step, and the conditions that every command keeps. Suse/Multiprog is about the
-- counter `ACTUAL_MULTIPROG`, not about the threads that are admitted, Suse/Semaforo about the semaphores, Suse/Cierre about the end of a
-- thread.
-- Wire: utils_suse/libraries.c (serialization with a running displacement, Wire/Serial) and
-- utils_suse/message.c (messages, Wire/Message), over buffers of bytes (Wire/Bytes). Loops run over
-- the list they write or the count they read.
-- Sac: filesystem/. Sac/Disco is the state of filesystem/sac_servidor.h, with the bit array of the
-- commons library and the functions on paths as parameters. Of filesystem/sac_handlers.c, Sac/Bloques
-- has the bitmap, the free blocks and the blocks of a file, where `none` is a lock that never returns
-- and the search takes as many rounds as there are data blocks; Sac/Ordenes the primitive commands,
-- Sac/Nodos the search of nodes by path, Sac/Nodos/Crear creation and renaming, Sac/Borrar removal,
-- Sac/Espacio truncation, Sac/Lectura and Sac/Escritura the contents of a file. A node or a position
-- outside of the table or block is a fault. The argument `tope` bounds the calls of
-- `borrar_directorio` (1026 are enough, one for each node and two more) and the loops of
-- `get_new_space` and `escribir_archivo`, which do not always end. Sac/Servidor is
-- filesystem/sac_servidor.c: arguments and replies, the handlers (Sac/Servidor/Respuestas) and
-- `fuse_invoke_function` with `message_handler` (Sac/Servidor/Pedidos), over the messages of
-- Wire/Message.
-- Comandos: commands over a state, which return, fault, block, or use up the rounds of a loop, with
-- the rules that evaluate them step by step (Comandos/Eval) and conditions after them
-- (Comandos/Logic).
-- Muse: memoria/main_memory.c, in the state of memoria/main_memory.h. Muse/State is the record of
-- pages, segments, programs, bitmaps, the bytes of the memory and of the swap file and the held
-- mutexes; Muse/Run has the primitive commands. Muse/Frames has the bitmaps, Muse/Clock the
-- modified clock and the victim, Muse/Marcos the frames for new pages and for pages that come back,
-- Muse/Metadata the metadata of the heap, Muse/Programs the searches, Muse/Malloc and Muse/Crecer
-- `memory_malloc`, Muse/Free `memory_free`, Muse/Copias the pages of mapped files, Muse/Lectura
-- `memory_get`, where the field that a new program leaves unset is an argument, and Muse/Escritura
-- `memory_cpy`, which faults for a new program, since it writes behind the end of a block. Loops
-- that run over a count take as many rounds as it says. The others (the clock's `while`, the search
-- for a frame, the walks along the blocks, the recursion of `memory_malloc`) take the argument
-- `tope`; a run that uses it up ends as `agotado`, which no code does. Four rounds of the clock are
-- one from the hand on, one that takes the marks of use, one for the pages that are not modified,
-- and one for those that are. An `int` that is -1 is `none`, addresses and sizes are 32-bit
-- patterns.
-- Muse/Mapas has `memory_map` and `memory_unmap`, with `open` and `mmap` as a parameter, and
-- Muse/Sincronia `memory_sync`.
-- Muse/Metadata/Contigua to Muse/Metadata/RoundTrip carry the proofs about a segment as one buffer,
-- Muse/Metadata/Bloques to Muse/Metadata/Reescritura those about a segment as a list of blocks.
-- Ejemplos: concrete states and inputs.
--
-- Sizes that the code assumes and does not test: `BITMAP` has 140 flags and `BITMAP_SWAP_FILE` 2048
-- (Muse/State), a decoded function has room for nine arguments of 8 bytes (Wire/Message), and a
-- displacement (Wire/Serial) and the offset of `setear_posicion` (Sac/Bloques) are `int`s. The state
-- here has no such ends, so the definitions follow the code within these sizes, and a theorem that
-- depends on one has it as a hypothesis.
--
-- Not modelled: the server memoria/muse.c, libs/libMuse, filesystem/sac_cliente.c, the sockets, the
-- configuration, the log, the mapping of the disk and the start of each server, which are calls of
-- libraries around what is modelled; `splitPath` and the release of messages in filesystem/.
pub mod Base
pub mod Commons
pub mod Comandos
pub mod Wire
pub mod Suse
pub mod Sac
pub mod Muse
pub mod Ejemplos
