-- ===== src/Lib.antt =====
-- Verification library of logful-api, the server that takes log files from mobile clients, decrypts and
-- parses them and hands the lines on to Graylog.
--
-- The program's parts, and the file that models each:
--
-- - native/interface.c, the JNI function behind CryptoTool.security: Native.antt. It is the program's
--   own C code. OpenSSL's functions and the JNI environment are the records Evp and Jni, parameters of
--   the model; the globals, the loaded algorithms and the pinned Java strings are the record State.
-- - native/include/openssl/obj_mac.h, the table of OpenSSL's objects that interface.c's names are
--   looked up in: Objects.antt and below, each stretch of the header as a list (Objects/PartOne.antt
--   and so on), together in Objects/Table.antt. Native/Objects.antt has which cipher and which digest
--   interface.c gets by their names.
-- - src/main/java/com/getui/logful/server/util/CryptoTool.java: CryptoTool.antt. The method for older
--   clients asks interface.c for a certificate and keeps it.
-- - src/main/java/com/getui/logful/server/util/ByteUtil.java and StringUtil.java: ByteUtil.antt and
--   StringUtil.antt (decryptError, levels, platforms) and StringUtil/Duration.antt (durationToSecond).
-- - src/main/java/com/getui/logful/server/parse/LogFileParser.java: LogFileParser.antt. A reader of the
--   byte stream, a round of the loop (parse_line) and the loop (parse_loop). The parser uses CryptoTool
--   through the record Decryption, which LogFileParser/Encrypted.antt fills for the newer clients.
--   LogFileParser/Listener.antt has the loop with a listener that may throw, as the parse task does.
-- - src/main/java/com/getui/logful/server/parse/LogFileProperties.java: LogFileProperties.antt.
-- - src/main/java/com/getui/logful/server/parse/LogFileParseTask.java and LocalFileSender.java:
--   Task.antt. The record Task is the task's state with the two services it
--   calls, the local file and the cached file; `run` is the whole task, with the parser in it;
--   Task/Encrypted.antt has it on a file that a newer client encrypted.
-- - src/main/java/org/graylog2/gelfclient/encoder/GelfMessageJsonEncoder.java and GelfMessageLevel.java:
--   Gelf/JsonEncoder.antt and Gelf/Level.antt. An object is the list of the calls that Jackson gets, by
--   which Graylog/Names.antt states what names the service's messages have.
-- - src/main/java/org/graylog2/gelfclient/transport/GelfSenderThread.java: Gelf/SenderThread.antt. The
--   thread's state is the record Sender, a step of it the function advance; SenderThread/Steps.antt has
--   the steps of the thread and of what is around it in any order.
-- - src/main/java/com/getui/logful/server/weed: Weed.antt (WeedFSMeta, WeedFSClientService),
--   Weed/ReadThread.antt and Weed/WriteThread.antt. The queues, the map, the directory and what is saved
--   are the record Weed; Weed/Steps.antt has what can happen to it in any order.
-- - src/main/java/com/getui/logful/server/entity/Layout.java and GlobalReference.java: Layout.antt, the
--   templates of message layouts and the map in which the layouts are kept.
-- - src/main/java/com/getui/logful/server/parse/GraylogClientService.java: Graylog.antt (the fields of a
--   message's columns) and Graylog/Client.antt (createMessage and write). Graylog/Columns.antt
--   and below has what the columns' fields are. The messages it puts into the queue are the ones that
--   the sender thread takes.
-- - src/main/java/com/getui/logful/server/schedule/ScheduledTasks.java: Schedule.antt, the retry of what
--   the database holds, and Schedule/Clear.antt, the clearing of the pending files and of old files.
-- - src/main/java/com/getui/logful/server/controller/ClientRestController.java: Upload.antt, the uploads
--   behind the reading of the request, and Upload/Request.antt, those of log files from the payload on.
--   A log file that is taken is what a Task works on (Upload/Parsing.antt).
-- - src/main/java/com/getui/logful/server/auth: Auth.antt and below. Auth/Documents.antt has the
--   collections of MongoDB as the repositories use them, Auth/TokenStore.antt the token store, with its
--   specification in Auth/TokenStore/Refinement.antt, and Auth/Clients.antt the clients and their key
--   pairs.
-- - src/main/java/com/getui/logful/server/mongod/GlobalConfigRepository.java and
--   rest/SystemRestController.java: GlobalConfig.antt, the level and the granted clients, with their
--   specification in GlobalConfig/Grants.antt.
-- - src/main/java/com/getui/logful/server/mongod/ClientUserRepository.java, and clientUserReport of
--   controller/ClientRestController.java: ClientReport.antt. ClientReport/Granted.antt has a report
--   after requests on the grants.
--
-- Base.antt has the library's names, Maps.antt the association lists that stand for Java's maps.
--
-- A Java integer is the integer that it stands for (Base/Int.antt), an array of bytes the list of its
-- bytes, a text the list of its characters' codes, null is `none`. An exception is a result of its own.
-- The parser's loop runs on fuel, one more than the bytes of the input: each line takes two bytes at
-- least, and LogFileParser/Progress.antt shows that the fuel is never used up.
--
-- Not modelled: the OpenSSL library itself, of which the repository holds only headers; what Spring,
-- MongoDB, Netty and Jackson do behind the calls; the controllers and repositories that only call them;
-- the rest of org/graylog2/gelfclient, a copy of Graylog's client, with its UDP transport and its chunks,
-- which the server does not use; a read of an uploaded file that throws; an interrupt of a thread that
-- waits for room in the transport's queue; the statistics of the JVM and of the process; and plain input
-- and output.
pub mod Base
pub mod ByteUtil
pub mod StringUtil
pub mod Maps
pub mod LogFileParser
pub mod LogFileProperties
pub mod Objects
pub mod Native
pub mod CryptoTool
pub mod Gelf
pub mod Weed
pub mod Layout
pub mod Graylog
pub mod Schedule
pub mod Task
pub mod Auth
pub mod GlobalConfig
pub mod ClientReport
pub mod Upload
mod Tests
