-- ===== src/Lib.antt =====
-- ntarAja OS, a small 32-bit kernel with a FAT32 file system and a shell, modelled and verified.
--
-- The kernel boots, sets its descriptor tables and its page directory, formats or loads the file system and
-- starts the shell, which reaches the file system, the keyboard and the screen through system calls. Its
-- parts, and the files that model them:
--
--   Memory        src/stdmem.c: the four routines over a memory of bytes.
--   Disk          the cluster operations of src/fat32.c over an interface of block devices. Inserter fills
--                 the interface with the image of src/external-inserter.c; Inserter.Main is its main, over the
--                 files and the scanned arguments of a host.
--   Ata           src/disk.c: the commands and transfers of the disk driver over ports. Ata.Device has the disk
--                 behind the ports, which the driver's theorems take as a parameter.
--   Fat32         src/fat32.c and src/lib-header/filesystem/fat32.h. The state holds the disk, the
--                 allocation table, the directory table and the cluster buffer. Layout has the on-disk form
--                 of both tables, Volume formatting, loading and flushing, Directory the searches, Reading
--                 read and read_directory, Writing write, Deletion delete, and RoundTrip what these
--                 do one after another. NoCmos has what src/fat32-no-cmos.c, the file system that the inserter
--                 is linked with, does in its own way, and what it has in common with src/fat32.c.
--   Rtc           the clock of src/fat32.c. The file system's operations take the time as an argument.
--   Ports         src/portio.c as an interface, with the laws of the display's cursor registers.
--   Framebuffer   src/framebuffer.c, Terminal src/terminal.c, Keyboard src/keyboard.c with its interrupt
--                 handler (Line, Typing and Erasing have what a key does to the buffer, Editor the
--                 text and the cursor that the buffer stands for, Sound and Requests the order of the
--                 driver's calls), Pic the interrupt controllers of src/interrupt.c.
--   Gdt, Idt      src/gdt.c and src/idt.c: the descriptor tables.
--   Paging        src/paging.c: the page directory.
--   Interrupt     the system calls and the dispatch of src/interrupt.c, over the parts above;
--                 Screen and Files set the calls beside those of the shell's session.
--   Boot          src/kernel.c: the start sequence, over the parts above.
--   Shell         src/user-shell.c: Shell itself has the string helpers, the search for a cluster and the
--                 coin; Session the shell's variables, its requests and system calls; Commands cat,
--                 rm, mkdir, ls, cp and the coin's command; Walk cd; Move mv; Find whereis; Prompt the
--                 start and one round of the loop. Printing, Folders and ReadOnly have what commands
--                 do together and to the disk, and ReadOnly.Flips rounds with the coin.
--
-- An operation is a function from a state to a result and a state. `none` stands for what C leaves
-- undefined, such as an access past the end of an array, for a loop that its fuel does not cover, and for the
-- halt on a page fault. A
-- table has 512 entries, so 512 rounds are enough for the file loop of write and for its search for a free
-- cluster, and 509 for its folder loop, which starts at cluster 3; read has as many rounds as its buffer has clusters; delete_loop has one for each cluster left.
-- The waits for the clock, the disk and a typed line, the shell's walk along a path and its search through
-- the directories take their fuel as an argument, since the outside or the disk decides how long they last.
-- What uninitialised arrays hold is an argument too. Machine integers keep their widths where the code depends
-- on them.
--
-- Not modelled: what the inserter prints of its arguments, and the assembly, with the calls of it in the
-- start sequence. The hardware behind the ports, the block device, the interrupt stubs' addresses and the
-- host of the inserter are parameters.
pub mod Prelude
pub mod Memory
pub mod Disk
pub mod Fat32
pub mod Inserter
pub mod Tests
pub mod Ports
pub mod Framebuffer
pub mod Keyboard
pub mod Pic
pub mod Gdt
pub mod Idt
pub mod Paging
pub mod Shell
pub mod Terminal
pub mod Ata
pub mod Rtc
pub mod Interrupt
pub mod Boot
