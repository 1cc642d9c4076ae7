-- ===== src/Lib.antt =====
-- A model of the kernel of PhantomOS, a 32-bit hobby operating system in C, and theorems on it.
--
-- The program. `kernel_main` (src/kernel/kernel.c) sets up the text terminal, the interrupt table,
-- the keyboard and a file system in memory. The keyboard interrupt collects a line, which the shell
-- cuts into words and carries out by calls of the file system (src/kernel/filesystem.c) and of the
-- terminal; one command starts an editor (src/kernel/editor.c). The file system keeps its nodes and
-- data buffers in a static pool of 64 KB.
--
-- The files, and the code that they are about:
--   Prelude         numbers, lists and options, and lemmas on them
--   CString         strlen, strcmp, strcpy and strncmp of src/kernel/kernel.c; strncpy, strcat,
--                   memset and memcpy of src/kernel/filesystem.c; theorems in CString/Compare and
--                   CString/Copy
--   FileSystem      the types and constants of src/kernel/filesystem.h; its children hold the
--                   functions of src/kernel/filesystem.c:
--     Alloc           kmalloc, get_current_time, fs_create_file
--     Lookup          fs_find_child, fs_resolve_path
--     Tree            fs_add_child, fs_remove_child, fs_delete_node, fs_init
--     Content         fs_write_file, fs_read_file
--     Paths           fs_get_parent_path, fs_get_filename, fs_update_current_path,
--                     fs_change_directory; theorems in Paths/Split, Paths/Walk,
--                     Paths/Components, Paths/Current and Paths/Stable
--     Transfer        fs_copy_file, fs_move_file
--     Invariant       well-formedness of the node graph and the pool, and lemmas on its changes
--     Directory       a directory as a relation between names and nodes
--     Operations      the whole operations against that relation and the invariant; files that hold a
--                   text in Operations/Texts, new files in Operations/Making and Operations/Placing,
--                   copies in Operations/Copied, moved files in Operations/Moved
--   Terminal        the functions terminal_* of src/kernel/kernel.c
--   Ports           inb, outb and io_wait of src/kernel/kernel.c, over a machine that is a parameter
--   Interrupts      idt_set_entry of src/kernel/kernel.c
--     Start           init_idt
--   Keyboard        the scancode tables of src/kernel/kernel.c
--     Start           keyboard_init; Start/Replies has what it relies on of the controller, Start/Silent
--                   a controller that gives no reply
--   Shell           parse_command_args of src/kernel/kernel.c; its children hold the commands:
--     Basic           the commands of process_command that do not use the file system
--     Listing         pwd, ls, tree (tree_print_node), stat and cat
--     Files           cd, mkdir, rmdir, touch, rm, cp, mv, write, and run_editor
--     Commands        process_command
--                   theorems in Words, Bounds and Numbers
--   Editor          editor_init, editor_move_cursor, editor_insert_char and editor_delete_char of
--                   src/kernel/editor.c; its children hold the rest of that file:
--     Files           editor_open, editor_save_file
--     Keys            editor_set_status, editor_process_command, editor_process_key
--     Draw            editor_draw
--                   theorems in Edit, Cursor, Backspace, Session, Opening, Saving, Screen,
--                   RoundTrip and SaveLoad
--   Kernel          the state of src/kernel/kernel.c, shell_prompt and the output; its children:
--     Handler         keyboard_handler
--     Start           kernel_main: start_kernel up to the end of init_idt, start_shell from the end
--                   of keyboard_init on
--     Ready           the invariant of the whole state, over the commands and the keys
--     Runs            one interrupt of the keyboard after another
--                   theorems on single keys in Keys and Leaving, on a typed line in Typing, and on
--                   write and cat one after the other in Texts, and on rm in Removing
--
-- Conventions. A call that can read or write out of bounds, or follow a NULL or dangling pointer,
-- returns an option, and `none` stands for that fault; a NULL result is an option of its own inside.
-- A pointer is an offset into the pool: the file system is a function from pointers to nodes, one
-- from pointers to data buffers, and the static variables. Aliasing is by equal pointers. The name
-- of a node and the paths are the strings that their arrays hold, without what stands behind the
-- NUL. `size_t` and `uint32_t` have 32 bits and wrap around; the sizes of a node (224 bytes) are
-- those of a 32-bit target, as the Makefile builds it. The time is the counter of the source. A
-- directory is well-formed if its slots below `child_count` hold nodes with distinct names whose
-- parent it is, and the others are empty.
--
-- The invariant of the file system has two parts: the nodes are well-formed and apart in the pool,
-- and, as the shell and the editor use it, a directory stands before its children and no text
-- reaches the last 296 bytes of its buffer, so that every read of a string meets a NUL.
--
-- Bounds and fuel. The loop of fs_resolve_path runs on fuel, one more than the length of the copied
-- path: each round consumes a component, so this is enough. fs_update_current_path climbs at most
-- 16 levels, as its array does. tree_print_node runs on fuel, the size of the pool: a child stands
-- behind its directory in the pool, so this is enough. The other loops are structural recursions.
--
-- The polling loops of keyboard_init run on fuel, which bounds the polls of each loop: they end only
-- if the controller answers. That it does so within `limit` polls, and how many replies it owes for a
-- command, are the hypotheses of the record Controller (Keyboard/Start/Replies). A byte for the
-- keyboard has its replies only where the controller is ready for one, which it is not behind the
-- command 0x60. The controller of Keyboard/Start/Answering, which keeps its configuration, meets them
-- with the limit 3.
--
-- The machine behind the ports is a parameter: the state of its devices, and what a read and a write
-- of a port do. The model keeps the sequence of the writes, but for those to port 0x80, which only
-- take time. The writes of keyboard_handler that end an interrupt, to port 0x20, are counted in the
-- kernel's state. `lidt` and `sti` set fields of the processor's state; the addresses of the interrupt
-- routine and of the table are parameters.
--
-- Not modelled: the boot loader and the interrupt entry in assembly, the build files and the scripts.
-- An interrupt runs to its end before the next one. Interrupts are on while keyboard_init runs, but
-- one that comes then, and that may take a reply from it, is not modelled: keyboard_init stands by
-- itself. Behind it the shell starts from any well-formed state, and the interrupts that follow come
-- one after another until the processor is halted. `kfree`
-- does nothing, and fs_get_current_dir and fs_get_current_path return a field, so they have no
-- definitions.
pub mod Prelude
pub mod Ports
pub mod CString
pub mod FileSystem
pub mod Terminal
pub mod Interrupts
pub mod Shell
pub mod Editor
pub mod Keyboard
pub mod Kernel
