-- ===== src/Lib.antt =====
-- famfs: a file system for shared, disaggregated memory. The master formats a dax device: a
-- superblock, then an append-only log of files and directories, then the space of the files.
-- Every host plays the log; only the master appends to it, after it has taken the space from a
-- bitmap that it builds from the log.
--
-- The parts and the files that model them (src/ is the folder of the C code):
--   Prelude    shared tests, lists and words, and the assertions of the C code as failures in Option
--   Bitmap     src/bitmap.h: mu_bitmap_* and mse_bitmap_set32, on an array of bytes
--   Meta       src/famfs_meta.h: the structures of the superblock's log and of file maps
--   Log        src/famfs_lib.c, src/famfs_meta.h: famfs_append_log and the functions that call it,
--              famfs_log_full, log_slots_available, the crcs, the checks of header and entries;
--              Log/Inv is the log's invariant, Log/View the list of the payloads in it
--   Super      src/famfs_lib.c: famfs_check_super, the role of a host, __famfs_mkfs
--   Alloc      src/famfs_alloc.c: Extent is set_extent_in_bitmap, Build famfs_build_bitmap,
--              Contiguous bitmap_alloc_contiguous and bitmap_free_contiguous, File
--              famfs_file_alloc_contiguous, Strided famfs_file_strided_alloc, Param
--              famfs_validate_interleave_param, Buckets the bucket series, Stats
--              mu_bitmap_range_stats, Choice famfs_file_alloc; Taken is what an allocation may do,
--              Strided/Sound and File/Sound that the two allocators do no more
--   Host       the calls of POSIX and the map ioctl, as an argument of what uses them
--   Files      src/famfs_lib.c: Path is famfs_relpath_from_fullpath, Create
--              famfs_file_create_stub, famfs_v2_set_file_map and famfs_dir_create, Mkfile
--              __famfs_mkfile, Mkdir __famfs_mkdir and famfs_make_parent_dir, Shadow
--              famfs_shadow_file_create and famfs_test_shadow_yaml, Session the steps
--              between the states that holders of the log's lock see
--   Replay     src/famfs_lib.c: __famfs_logplay into a mount; Entry is one entry of it, Same one that
--              is there already, Twice a second play, Whole the statistics of a play
--   Icache     src/famfs_fused_icache.c: the inodes of the fuse daemon at their addresses; Inv is the
--              invariant, Steps, Unlink, Drop and Count its parts, Putref, Insert and Getref the operations
--   Yaml       src/famfs_yaml.c over the events of libyaml, which is an argument; Numbers is the
--              printing of numbers and strtoull, Tree the documents, Emit the writers
--              (famfs_emit_file_yaml), Parse the readers: Extents and Striped of the two extent
--              lists, File famfs_parse_file_yaml and famfs_parse_shadow_yaml, Alloc
--              famfs_parse_alloc_yaml; Loop and Fuel are about their loops; RoundTrip puts the
--              writers and the readers together, Stat is famfs_shadow_to_stat
--   Daxdev     src/famfs_dax.c: famfs_daxdev_table_add
--   Message    src/famfs_fmap.c: famfs_log_file_meta_to_msg
--   Debug      src/famfs_debug.c: famfs_compare_log_file_meta
--   Pcq        src/pcq.h, src/pcq_lib.c: the producer/consumer queue; Pcq/Fifo is its invariant and
--              its messages in order, Create is pcq_create, Producer and Consumer are put and get
--   Tests      small runs, and the theorems at inputs that meet their hypotheses
-- Log and Alloc use Meta and Bitmap; Alloc/Build reads the log through the checks of Log; Super makes
-- the empty log that satisfies the invariant of Log. Files/Mkfile takes space through Alloc/Choice,
-- creates the file through Host and appends to the log; Files/Session puts these together.
--
-- State and arithmetic: structures are records and operations return the new record; an array is a
-- function on indices. A u64 or u32 is a native number, with % 2 ^ 64 or % 2 ^ 32 where the code can
-- wrap, and an s64 or int result is its bit pattern. A failed assert is none, a return code a value
-- of Rc. Every `for` loop is a recursion on the number of rounds left, which is computed as in the
-- code, so there is no fuel that could run out. Three kinds of recursion have fuel: the loops of the yaml
-- readers, where one more than the number of events is enough, famfs_make_parent_dir on paths, where one more than the length of the path is enough, and famfs_inode_putref_locked on
-- parents, where one more than the number of inodes is. The waiting loops of the queue recur on the
-- list of what they observe of the other side; a list that ends while they still wait gives none.
--
-- From outside come, as arguments: zlib's crc32 and the compiler's layout of an entry (Checksum),
-- the numbers that rand gives, uuids, what shared memory shows to a reader whose cache may be stale.
-- Libyaml of Yaml is libyaml: what its emitter accepts, and the events that its parser returns for a
-- file. FuseLayout of Message has the sizes and the widths of the kernel's structures. Memory allocation succeeds, but for libyaml's. Posix of Host is the operating system: any state with any behaviour.
--
-- The bitmap of the model has no end. The code can reach behind the bits of the device, which has no
-- meaning in C; there the theorems are about the model alone.
--
-- Not modelled: the branches of mkfile, mkdir and replay for a shadow root, the search in the inode cache, the callbacks of the
-- fuse daemon, mounting, the command line, and everything that maps files or devices, prints,
-- or starts threads.
pub mod Prelude
pub mod Bitmap
pub mod Meta
pub mod Log
pub mod Super
pub mod Alloc
pub mod Daxdev
pub mod Pcq
pub mod Debug
pub mod Files
pub mod Host
pub mod Icache
pub mod Message
pub mod Replay
pub mod Yaml
pub mod Tests
