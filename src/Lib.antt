-- ===== src/Lib.antt =====
-- HybridDatabases: an in-memory database with transactions in C. Programs change nodes in memory
-- under versioned locks; a commit writes what it changed to a file of root elements, from which
-- the database is loaded again.
--
-- The parts, and where they are modelled:
-- * storage/ -- the file format. Storage/Format holds its marks, Storage/Crc the checksum of
--   storage.include/crc.c, Storage/Codes the loops that turn numbers into bytes, Storage/Writer
--   writer.c and the writing half of inline.h, Storage/Reader reader.c and the reading half of
--   inline.h, Storage/Items the grammar of storage.h with the macros that write it, Storage/Frames
--   root elements, and Storage/Rescuer rescuer.c. A buffer is the list of its bytes with its
--   capacity; pointers are offsets. The reader keeps the address of its bytes, since the source
--   compares pointers that can wrap.
-- * utils/ -- Utils/Lock models lock.h, and Utils/Lock/Interleaving its threads; Utils/Dictionary
--   num_dictionary.h; Utils/FastStack fast_stack.h; Utils/Stack stack.h; Utils/InlineStack
--   inline_stack.h; Utils/RingList list.h, whose cells are numbers with links.
-- * database.include/ -- Transactions models transaction.c, the transactions of inline.h and
--   macros.h, util_lock of utils/utils.h, and what threads.c posts for a commit: the state of a
--   handle and its database is Transactions/State, the ends of a transaction are
--   Transactions/Commit, and what happens between them is the relation of Transactions/Runs.
--   Transactions/Sharing lets several handles make these calls on one database, in any order.
--   Transactions/Handles models handle.c.
-- * database.include/ and attributes/ -- Persistence/Attributes models attributes/defs.h with what
--   generate.pl and generate/generate_node.pl print for it, Persistence/Writing write.c,
--   Persistence/Reading read.c, Persistence/Loads load_file and the loop of load_data of
--   database_create.c, Persistence/Log process_transaction_log and the write buffer of threads.c,
--   Persistence/DataFile _database_new_file of database.c, and Persistence/Startup load_data of
--   database_create.c over a directory. The effect that records are meant to have is
--   Persistence/Operations. Service models service_thread and do_dump of threads.c, and
--   Service/Queue the output queue between output_queue_push of transaction.c and service_thread,
--   access by access.
-- * allocators/ -- Allocators/Generic models generic_allocator and the clock of threads.c that it
--   asks, Allocators/Versioned vpage_allocator, Allocators/Cached simple_allocator,
--   Allocators/Nodes node_allocator, and Allocators/Pages page_allocator.
-- Base has the lists, tests and conditionals that they share; Tests applies the theorems to data.
--
-- Operations keep the names of the functions and macros. `none`, or `fault` for the reader, is a
-- failed assertion or behaviour that C leaves undefined; `fail` is an error that the source
-- reports. Memory is taken to be granted when it is asked for. 64-bit wrap-around is written out
-- where the source relies on it or is exposed to it: lengths, pointers, the hash, and the clock.
--
-- Fuel: the digits of a number have eight rounds and its prefix eight, as a 64-bit number needs no
-- more; loops over the bytes of an element have one round more than it has bytes, and each round
-- takes a byte at least; the rescuer has a round for each root element and one to stop.
--
-- The transactions are in the default configuration, with locks in nodes and indexes. In all of
-- Transactions but Sharing they are those of one handle: others move the clock and are kept out of
-- the memory by the locks. In Sharing the calls of the handles follow one another, each as a whole;
-- that l_lock and l_unlock may interleave is the subject of Utils/Lock/Interleaving. There every
-- byte has one lock, and the clock does not wrap around. A log item's address is its position in
-- the log.
--
-- A node's attributes are the list of their values, and the dictionary from ids to nodes is a
-- function, as Utils/Dictionary models the table itself. The bytes of the file that are not read
-- yet determine the address of the next element by a parameter. A long double has 16 bytes. For
-- Service the queue is the list of its jobs, each with the number of nodes that do_dump gets to
-- behind it, which stands for batches, waiting and collisions. The loops of load_file have
-- a round more than there are bytes left; a dump has a round more than there are nodes, and its walk
-- over the pages a round for each node and page.
--
-- Small integers are taken to hold what is put into them: the index and the size of a log item,
-- the numbers in the names of files, and the index of the loop of page_allocator. Service leaves
-- out the waits of the service thread for a commit that is not ready and for the end of a pause.
--
-- Not modelled: creation and deletion of nodes in memory and their indexes, fix_pointers and
-- fill_indexes, writing and destroying attributes of nodes, reference counts, the thread that
-- syncs, bit arrays and singly linked lists, the tool that shows a file, the generators but for
-- what they print for loading and storing, and the macros that check types at compile time.

pub mod Allocators
pub mod Base
pub mod Persistence
pub mod Service
pub mod Storage
pub mod Tests
pub mod Transactions
pub mod Utils
