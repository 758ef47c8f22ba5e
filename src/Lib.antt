-- ===== src/Lib.antt =====
-- A verification library of HTTP-2.0-Server, a web server over HTTP/2.
--
-- A connection's bytes are split into frames by Frame::toFrames; a HEADERS frame's payload goes
-- through the HPACK decoder, whose state is the dynamic table; a response's frames are cut to size
-- by Response::processFrames and written by Response::encodeFrames through Frame::encode. A Client
-- keeps the streams of a connection, and FrameHandler changes them frame by frame.
--
-- Files and the code they model (paths from the repository's root):
--   Http2/Frame       http2/protocol/frame.h, frame.cc: class Frame
--   Http2/Settings    http2/protocol/settings.h, settings.cc, error.h: class Settings
--   Http2/Names       http2/headers/constants.cc: the names of headers
--   Http2/Constants   http2/protocol/constants.cc: the tokens and the preface
--   Http2/Headers     http2/headers/headers.h, headers.cc: Header and class Headers
--   Http2/Hpack       http2/protocol/hpack: Integer (decode_integer, encode_integer), Table (class
--                     Table, static_table), Huffman (encode_huffman, decode_huffman), Decoder
--                     (class Decoder) and Encoder (class Encoder)
--   Response          Response/response.h, response.cpp: class Response
--   Client            Client/client.h, client.cpp, stream.h: class Client, class Stream; in
--                     Client/FrameHandler and Client/Responses Frame-Handler/frameHandler.cpp:
--                     class FrameHandler; in Client/Request Client::doRequest and
--                     Client::continueHandshake; in Client/Website a client of main.cpp's
--                     server, with its WebBinder
--   Server            Client/clientManager.h, clientManager.cpp: class ClientManager;
--                     Networking/Epoller: class Epoller; in Server/Listener Networking/Socket:
--                     class Socket
--   ThreadPool        Multithreading/threadPool.h, threadPool.cpp: class Task, class ThreadPool
--   WebBinder         WebBinder/webBinder.h, webBinder.cpp: class WebBinder
--   Content           Response/responseData.h, responseData.cpp: class ResponseData
--   Status            http2/headers/statusCode.h, statusCode.cpp: the texts of status codes
--   Util              util.cpp, Utils/toHex.cpp: class Util and toHex
--   Base              numbers, lists, bits and strings that the parts share
-- A file's own definitions are the program's; the files in its folder hold lemmas and theorems, and
-- Tests runs at concrete inputs.
--
-- A byte is a number below 256, a std::string or a byte range the list of its bytes; a pointer into
-- a range is the rest of the list. Operations keep the C++ names in snake case. A frame, a table or
-- a settings object is a record, and a method that changes it returns the new record. Unsigned
-- arithmetic that can wrap has its `% 2 ^ w` written out. What C++ leaves undefined, such as a read
-- outside a buffer, is a result of its own (`fault`, `undefined`), an abort(), a failed assert or
-- an exception is `none`. Frame::toFrames reads a length without a look at the end of its range, so
-- it is given what is behind the range in the memory as well: in Client::doRequest the rest of the
-- buffer, and else nothing.
--
-- Loops that are not over a list run on fuel: toFrames has a round for each byte, splitFrame one
-- for each byte and one more, evict one for each entry, encode_integer five, decode_huffman's inner
-- loop one for each bit and one more, decode_lowmem one for each byte, parse_query_string one for
-- each character. Running out has a result of its own (`stuck` or `none`). The results show that it
-- is not reached, for decode_lowmem and the strings in it on any bytes, for parse_query_string on
-- what has been written as parameters.
--
-- An event of epoll leads to Epoller's dispatch, from there to ClientManager::acceptClient or
-- handleClient, and through Client::doRequest to the frames. What the system and OpenSSL give in a
-- call is an argument of the model: `Outside` (SSL_write, and the contents that a WebBinder finds; Client/Website fills these in),
-- `Received` (SSL_read), `Accepted` (SSL_accept), `Accepting`, `Incoming` and `Calls` (accept, epoll
-- and the calls of Socket's constructor), and `Files` (std::filesystem and std::ifstream). A thread
-- pool is a relation between its states, one step for each turn that a thread takes under the lock,
-- so every interleaving is a sequence of steps; a connection waits for the tasks that it queues.
--
-- Not modelled: the log and the printing of frames; getIp and the addresses of clients; main, which
-- calls the constructors and epollLoop; what the system does in a call. Descriptors, times,
-- weights and the number of clients accepted are natural numbers, so the int `ctr` of
-- ClientManager is taken not to overflow.
pub mod Base
pub mod Client
pub mod Content
pub mod Http2
pub mod Response
pub mod Server
pub mod Status
pub mod ThreadPool
pub mod Util
pub mod WebBinder
