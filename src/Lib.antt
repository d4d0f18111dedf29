-- ===== src/Lib.antt =====
-- A model of raptor-common, the C library that the daemons of the Raptor Streaming System share,
-- with theorems on its parts.
--
-- The parts, and the files that model them:
--   Config: the INI store of src/rss_config.c. Types has its structures, Store the lookup and the
--     writes (find_or_create_section, add_entry_ex, rss_config_get_str, rss_config_get_bool), Edit
--     rss_config_set_str, _set_bool, _unset, _remove_section, _has_dirty and the two walks, and Load
--     rss_config_load. The linked lists are lists, newest first; a write in place is `update_first`.
--     Update, Lookup and Unique carry the lemmas; Tidy and Invariant keep the shape of the store;
--     Reads, Writes and Removal say what each call does to later reads; Numbers has the integer
--     getters, over strtol; Machine compares any sequence of calls with a map; Lines compares the
--     loader with the lines of the text. The save is in five files: Print (config_write, with Plain for the same text in a buffer without an end), Classify
--     (classify_line), Surgical (collect_dirty and the binding half of config_write_surgical), Emit
--     (its printing half) and Save (rss_config_save, over the file system as a parameter). Binding,
--     Emitted, Foreign and Kept follow the lines that a save leaves alone, Readable, Printed, Reload
--     and Reloaded a store through config_write and rss_config_load, and SaveLaws the store itself.
--   Text: the string helpers of src/rss_util.c (rss_strlcpy, rss_trim, rss_starts_with,
--     rss_secure_compare) and the C library's that the code calls, with Names, Copying and Compare.
--   Files: rss_mkdir_p and the JSON getters of src/rss_util.c, over mkdir(2) and cJSON as parameters.
--   FileIo: rss_read_file and rss_write_file_atomic of src/rss_util.c over a record of system calls
--     (Calls) and what they document (Contract); Rounds, Reading, Writing, Moving and Atomic follow the two
--     functions through every answer. Config/OnDisk runs rss_config_save on them, and
--     Config/Persisted says what is on the disk afterwards.
--   Log: src/rss_log.c, its four statics and what a message becomes; Routing says where it goes.
--   SignKey: src/rss_sign.c over the file calls; Random has what its helpers do to files, Agreement
--     follows the seed.
--   Daemon: src/rss_daemon.c. Daemon has the flags and the cleanup, Process rss_daemonize and
--     rss_daemon_check over the calls on processes, and Init rss_daemon_init; Locked follows the lock
--     on the pid file, Asked the options, Started the context.
--   Json: the operations of cJSON that the control code calls, as a record, and what they document.
--   Control: the responses of include/rss_common.h; Common has every command of
--     src/rss_ctrl_cmds.c, over the state in Control/Machine (store, file system, logger, flags),
--     Client src/rss_ctrl_client.c. Effects says what a command changes, Session follows a daemon
--     through any sequence of requests and signals, Answers and Levels put client and handler
--     together.
--   Sei: src/rss_sei.c, the builder in Sei, the parser in Sei/Parse; Walk and RoundTrip put the two
--     together.
--   Ts: src/rss_ts.c. Crc has the table and mpeg_crc32, Packets write_pts, write_pcr and
--     write_pes_packets, Mux the multiplexer's state and its entry points. CrcLaws, Demux, Stream,
--     Receiver and Sections read the packets back as ISO 13818-1 says.
--   Aac: src/rss_aac.c, with a decoder in Aac/Decoder.
--   Http: src/rss_http.c; Base64 has the encoder of RFC 4648, Auth the check of basic authentication,
--     which calls the comparison of Text.
--   Shadow: src/rss_shadow.c on the bytes of the password file; Field has the line that is found.
--   MediaClock: src/rss_media_clock.c, its window, its median and its slew; Steps bounds them.
--   Jpeg: src/rss_jpeg.c. Jpeg has rss_jpeg_sign and rss_jpeg_verify, over any signature scheme: the
--     two functions of monocypher that they call are parameters. Exif has the capture time, over the
--     calendar, strftime and sscanf of the C library. Signed and Stamped read back what is written.
--   Vui: src/rss_vui.c. Walk has the bit reader as a monad, H264 and H265 the walks over a parameter
--     set, Escape the emulation prevention bytes and Edit vui_edit with its callers. Local shows that
--     a walk reads nothing behind the place where it ends; Writes, Settled, Twice, Committed and
--     Fields follow an edit through the walk and the escaping, and Golomb reads the codes.
--   Base: names, tests, lists, signed integers and bit operations that all of them share.
--   Tests: each part at concrete inputs.
--
-- Numbers are natural numbers, and a shift or a sum that can leave its C type has its remainder
-- written out. A C string is the list of its bytes before the NUL, and an output buffer is the list
-- of what is written. A loop that is not a walk over a list has fuel: the packet loop of
-- write_pes_packets one round for each byte to send, rss_config_load and passwd_field one for each
-- byte of the file, and one to find its end, rss_jpeg_get_exif_time one for each byte of the
-- picture, the last loop of a save one for each entry, and the window of rss_media_clock.c one for
-- each of its 16 buckets. The loops of src/rss_util.c over read and write have one round for each
-- byte and each interruption that can still come, and one more, and the one of src/rss_sign.c over /dev/urandom
-- has one for each of the 32 bytes. Each other round uses up a byte, an entry or a bucket, so that the fuel does not
-- end first. The reads of src/rss_vui.c go over a buffer of at most 1024 bytes, and its loops over
-- their counts.
--
-- Not modelled: what follows where an int of rss_read_file overflows, for files from 1 GiB on; the
-- clocks of src/rss_util.c; src/rss_tls.c and include/rss_net.h, which wrap mbedTLS
-- and sockets; and the copies of cJSON and monocypher. Allocation is taken to succeed outside FileIo and the control
-- responses, arguments are not NULL unless the model has an Option for them, and the other
-- parts do not call the logger.
pub mod Base
pub mod Text
pub mod Config
pub mod Sei
pub mod Aac
pub mod Jpeg
pub mod MediaClock
pub mod Files
pub mod FileIo
pub mod Log
pub mod SignKey
pub mod Json
pub mod Daemon
pub mod Control
pub mod Http
pub mod Shadow
pub mod Ts
pub mod Vui
pub mod Tests
