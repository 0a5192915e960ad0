-- ===== src/Lib.antt =====
-- harmony-http: an HTTP/2 server in C++ on nghttp2, OpenSSL, libev and libpq.
--
-- A connection is an HttpSession: nghttp2 calls its callbacks for the frames that come in, and they
-- keep a Stream for each request, with its header fields, its body and its response. HttpRouter
-- picks the handler of a request by method and path. What is to be sent goes from nghttp2 through
-- the session's write buffer to TLS.
--
-- Parts and files (paths from the repository's root):
-- - Buffer: src/buffer.h, `Buffer<N>`. The pointers pos_ and last_ are indexes into the array; Buffer/Calls has
--   the queue that it stands for.
-- - Wire: src/httpsession.cc, `fill_wb`, `ssl_write` and `write`. nghttp2_session_mem_send and SSL_write
--   are the fields of the record Calls; Wire/Laws says what is relied on of them: mem_send hands out
--   the bytes that it serialises once and in order, of which there are finitely many, and SSL_write
--   takes a prefix of what it is given.
-- - Link: src/httpsession.cc, a session from its constructor to its removal: the handshake of TLS, `read`
--   with `ssl_read`, and the callbacks of its watchers, on top of Wire; and the tests of src/util.cc on the
--   protocol and the cipher. OpenSSL and nghttp2 are the records Calls and Peer, with laws in
--   Link/Laws. A sequence of events stands for the event loop, and one of them for whatever the server
--   does to the session's streams in between.
-- - Worker: src/worker.cc and `acceptcb` of src/server.cc: connections on their way to a worker's list of
--   sessions, and the serials of streams. The queue between the threads is the record FdQueue;
--   Worker/Handoff has the steps of both threads in any order.
-- - Memory: src/util.h, `MemBlock` and `to_string`.
-- - Router: src/httprouter.h and src/httprouter.cc. `Node` is RouteNode, `insert_path` and `match` are its
--   methods, Router/Table has HttpRouter. Members that a constructor leaves uninitialised hold what
--   a `Memory` says, each new node's its own.
-- - Header, Percent: src/util.cc, `streq_l`, `lookup_header`, `percent_decode`. Base64: src/common_util.cc.
-- - Json: src/json.cc, src/json.h, and `append_quoted_string` of src/util.cc. The text of a number is
--   given, since snprintf writes it.
-- - Fields, Response: src/stream.h and src/stream.cc, `Stream::Headers` and `Stream::ResponseHeader`.
-- - Request: src/httprequest.cc, the delivery of a body to callbacks and coroutines. Request/Params:
--   `get_param` of src/httprequest.h, with fuel one more than the bytes of the route.
-- - Session: src/httpsession.cc and src/stream.cc, the callbacks of nghttp2, with src/stringstream.cc. The
--   calls of nghttp2 and libev that a callback makes are a list of effects, a timer is whether it
--   runs, and what a handler does is a parameter.
-- - Events: src/event.h and src/eventdispatcher.cc, events and the registry of streams by channel. A
--   stream is a number in place of its address.
--   Events/Stream: src/eventstream.cc, `EventStream`, whose `send` cuts the text of an event into the
--   chunks that nghttp2 asks for.
-- - Db: src/dbquery.h and src/dbsession.cc, the session with PostgreSQL. The functions of libpq are the
--   fields of the record Libpq. Db/Connect has `poll_connection` and `connection_made`, Db/Read has `read`
--   with `handle_result` and `check_notif`, what completion handlers do being the record Client,
--   Db/Callbacks the callbacks of the watchers,
--   Db/Results has ResultBase of src/dbresult.cc. Db/Iterate has the rows
--   of a result, Db/Owners the objects that own what
--   libpq allocated, of src/dbresult.cc and src/dbnotify.cc. Laws of libpq are in Db/Order (it keeps commands in order) and
--   Db/Replies (it hands out the results to come one by one).
-- - Dates: src/util.cc, `parse_http_date` and `http_date`, with strptime and gmtime_r as parameters. A time
--   before 1970 is a negative number.
-- - Files: src/fileentry.cc and the table of files of src/worker.cc, `add_static_file`, `get_static_file`
--   and `remove_static_file`. The file system is the record Disk.
-- - Statics: src/server.cc, `serve_static_files` and `iterate_directory`, on top of Files. A tree stands for
--   what opendir and readdir give; `files` of Statics/Listed lists the paths in it that are served.
-- - Mime: src/util.cc, `read_mime_types`, with fuel one more than the bytes behind the type of a line.
-- - Reply: src/stream.cc and src/httpresponse.cc, the responses that a stream submits, on top of
--   Response, Files and Dates. Reply/FileBody: src/filestream.cc, `FileStream::send`, whose fuel is one
--   more than the bytes that are asked for.
-- - Rows: src/util.cc, `to_json`, with what libpq says of a result as a record, on top of Json.
-- - Cookies: src/util.cc, `get_cookie`, with npos and exceptions written out; fuel one more than the bytes
--   of the header, of which a round takes one at least.
-- - Prelude: names and lemmas that the parts share.
--
-- Integers: a size_t is a natural number where no operation of it can wrap; a char is a byte, and where the
-- source truncates or wraps, the remainder is written out. A failed assertion, a thrown exception
-- or an uninitialised read is a value of the result.
--
-- Fuel: `insert_path` has the length of the path and one more, and each level takes a byte at least.
-- `fill_wb` has the size of the buffer and two more, and each round but the last two writes a byte. `write`
-- is given its fuel by the caller; Wire/Idle has the bound that is enough. Likewise the `write` of Db, with
-- the bound in Db/Total, and its `read`, whose loops take a result to come in each round.
-- The fuel of Link is a function of the connection, above the bounds that Link/Laws names, for `read` one more
-- than the times that SSL_read can hand out bytes. `count_size` of Memory has 20, the digits of 2^64.
-- `write_prefix` has the length of the chunk and one more, and each round writes a byte at least.
--
-- Not modelled: the set-up of sockets, TLS and threads, and the coroutine types, which have no logic
-- of the server's own; libpq, libev, OpenSSL and nghttp2 themselves. Left for later:
-- the strings that keep a database result, and the wrappers of Connection.
pub mod Prelude
pub mod Buffer
pub mod Wire
pub mod Link
pub mod Worker
pub mod Memory
pub mod Statics
pub mod Mime
pub mod Router
pub mod Header
pub mod Percent
pub mod Base64
pub mod Response
pub mod Fields
pub mod Json
pub mod Request
pub mod Session
pub mod Events
pub mod Db
pub mod Files
pub mod Reply
pub mod Rows
pub mod Cookies
pub mod Dates
