-- ===== src/Lib.antt =====
-- A model of amdgpu-fand, the fan control daemon for AMD graphics cards, and of its protocol with the
-- client amdgpu-fanctl.
--
-- The daemon reads the temperature of the card every few seconds, looks up a fan speed in the
-- configured matrix, and writes it as a PWM value. A client asks it over a socket for the speed, the
-- temperature or the matrix; both sides pack and unpack messages with format strings.
--
-- Files and code:
--   Base: lists, options and signed results over the native numbers.
--   Float: the binary32 arithmetic of src/fand/interpolation.c, exactly, and its lerp_inverse and
--     lerp. A float is its number of units of 2 ^ -149. The search for the spacing of the floats runs
--     on fuel 512, and a quotient of the code has less than 300 bits. The product and the sum of lerp
--     are rounded one after the other, as on a machine without contraction of the two. Float.Accuracy
--     is about the error of an interpolated value; Float.Round, Float.Interpolation and Float.Wide
--     hold the lemmas.
--   Fanctrl: src/fand/fanctrl.c and hwmon_write_pwm of src/fand/hwmon.c. The static variables are the
--     record Fanctrl, `adjust` is fanctrl_adjust, `configure` is fanctrl_configure. The sensor's answer
--     and the function that answers for the PWM file are arguments. Pwm is about the conversions,
--     Segment and Curve about the lookup, Inv about the invariant and the configuration, Adjust about
--     one call, Hysteresis about sequences of calls, Falling about a matrix whose speeds fall.
--   Serialize: src/common/serialize.c, for a little-endian machine with 4-byte int, 8-byte long, and a
--     va_list that is passed by reference (x86-64 Linux). Dfa is the automaton of the conversions,
--     Pack and Unpack are packf and unpackf, Message the messages. A buffer is a list of bytes; a
--     pointer argument is the list behind it or its room, and an access outside of an object is the
--     outcome `undefined`. The loops run on the length of the format string, since each round takes a
--     character at least. Conversion, Fields, Ends and the children of Message hold the lemmas.
--   Server: server_validate_request, server_pack_result and server_recv_and_respond of
--     src/fand/server.c (`recv_and_respond`). What recv, getsockopt, the devices and send give is the
--     record Session. Server.Exit is about the exit status, Server.Responses about what is sent.
--   Request: src/fanctl/request.c and the function format of src/fanctl/format.c; what is printed is a
--     value of the type Shown. Request.Exchange and Request.Exit put the server and the client
--     together, Request.Convert is about the names of the requests.
--   Strutils: src/common/strutils.c, with tolower and strtoul of the C library as arguments. Copy is
--     about strscpy and strsncpy, Room about their destinations, Range about strstoul_range.
--   Sha1: src/fand/sha1.c on a little-endian machine. Sha1.Blocks and Sha1.Stream are about the data
--     arriving in chunks. `feed` runs on the number of bytes and `pad` on 65 rounds, one more than a
--     block has bytes.
--   Cache: src/fand/cache.c. Reading and Writing are what the system calls answer, `exists` answers for
--     fsys_file_exists. The struct is read by memcpy or by unpackf, as its padding has it.
--     Cache.Fields and Cache.Packing are about the bytes written, Cache.Unpacking about reading them,
--     Cache.Roundtrip and Cache.Accepted about whole files.
--   Hwmon: the search for the device in src/fand/hwmon.c, by what the system's directories hold, the
--     record Sysfs. Hwmon.Paths is about the paths put together, Hwmon.Search about the search.
--   Config: src/fand/config.c. A file is the list of the lines that fgets gives. The record CLibrary
--     holds what regexec finds for each expression, tolower and strtoul. The loop of config_parse runs
--     on the number of lines, since each round takes one at least. Config.Setting, Config.Matrix,
--     Config.Append and Config.File hold the definitions; Settings, Ranges, Joined and Parsing are
--     about memory, ranges and the end of the loops; Text, Stored and Written about the text of a
--     matrix; Overflow about a matrix longer than its buffer; Sample is a
--     library and a file for the tests.
--   Watch: src/fand/filesystem.c, the inotify watch and the paths it needs. The record Directory is
--     what the system calls answer; the loop over the events runs on the number of bytes, since each
--     event takes sixteen at least. Watch.Events is about the events, Watch.Setup about the set-up.
--   Daemon: src/fand/daemon.c, fanctrl_init and fanctrl_release. The record Daemon has the flags that
--     the signal handler sets and the local variables of daemon_main; a Round is what the world gives
--     to a round of the main loop: the signals by the calls that they come before or in, the sensor,
--     the events and the file. The loop runs on the list of rounds. Startup and Shutdown are the
--     answers that daemon_init and daemon_free get. Daemon.Signals is about the handler,
--     Daemon.Running about the start, Daemon.Steps about the calls of a round, Daemon.Ends about
--     rounds and the loop, Daemon.Children about the end of a child that has served a client; Daemon.Sample
--     is a world for the tests.
--     Server.Socket is the socket of src/fand/server.c, Server.Setup its set-up.
--
-- Not modelled: fsys_append; opening, reading and closing the device's files in src/fand/hwmon.c, and
-- src/fand/drm.c, which are calls of the system; src/fand/file.c, src/fand/pidfile.c and
-- src/fand/sigutil.c, whose results are arguments; the sockets of src/fanctl and the printing of
-- src/fanctl/format.c; the log; the command lines, which argp parses.
pub mod Base
pub mod Float
pub mod Fanctrl
pub mod Serialize
pub mod Server
pub mod Request
pub mod Strutils
pub mod Sha1
pub mod Cache
pub mod Hwmon
pub mod Config
pub mod Watch
pub mod Daemon
