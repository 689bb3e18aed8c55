-- ===== src/Lib.antt =====
-- A model of the SOCKS5 server hw2-socks5-server and of the messages of hw1-binary-serialization,
-- with the theorems about them. The two programs share nothing.
--
-- The server is a proxy on io_uring. One IoUring per thread owns the listening socket, a pool of
-- events, four for each connection, and a pool of buffers, one for each connection, each of two
-- halves. event_loop waits for a completion; an accept makes a Session, which obtains a buffer; a
-- completion of a session carries a pointer to its event, which names the session and the handler.
-- A handler reads or writes through the add_*_request functions, each of which obtains an event and
-- submits a request, and counts it in awaiting_events_count. A session goes through the handshake
-- of SOCKS5, connects to the destination and relays both ways. It fails at once (its descriptors
-- are closed) or after a last reply, and is deleted when it has failed and awaits nothing.
--
-- The messages have a sender, a receiver, a text and attachments. A Message or a MessageVector is
-- turned into an item of CBOR, an object of MessagePack, a buffer, or a document of BSON, and made
-- of one again.
--
-- Prelude              names of the libraries, lists, tests, the machine words (Prelude/Word) and the
--                      casts between them (Prelude/Int), sums over lists (Prelude/Totals)
-- Socks/Outcome        how a C++ function ends: done, thrown, exited, fault, exhausted
-- Socks/Os             the answers of ::socket, ::close, gethostbyname and new, a parameter
-- Socks/Events         EventPool (hw2-socks5-server/include/server.hpp, src/server.cpp)
-- Socks/Buffers        BufferPool; a pointer into m_buffers is its offset
-- Socks/Sockets        Socket, SocketIPv4, SocketIPv6 (hw2-socks5-server/src/socket.cpp, syscall.cpp)
-- Socks/Session        the members of Session and its constructor
-- Socks/Ring           IoUring and add_*_request; Machine is a session with its m_server; Ring/Sent
--                      says what such a function leaves behind
-- Socks/Transfer       read_from_client, read_some_from_client, write_to_client, fail_delayed,
--                      fail_immediately, send_fail_message, consume_bytes_from_read_buffer
-- Socks/Handshake      read_client_greeting up to connect_ipv6_destination, translate_errno
-- Socks/Handlers       handle_client_read and _write, handle_destination_connect, _read and _write
-- Socks/Server         handle_accept, event_loop's body and ~Session, on a store of sessions
-- Socks/Kernel         the loop against a kernel that completes any pending request
-- Socks/Flight         the requests in flight for each session, as the pool's events tell them
-- Socks/Safety         what a session waits for in each state, and that every handler respects it
-- Socks/Server/Invariant, Settle, Delete, Completion; Socks/Kernel/Pick, Safe, Accept, Runs,
-- Kernel/Memory, Bytes, Relay   the invariant of the loop, through each part of a round; the bytes
--                      that go through the buffers, and those that the relay passes on
-- Socks/Stream         the greeting and the request of a client as RFC 1928 lays them out, lists of
--                      bytes, and the reads of handle_client_read against them
-- Socks/Accepts        the accept requests that are pending, over any run of the loop
-- Socks/Host, Main      main and parse_cmd_line (hw2-socks5-server/src/main.cpp), MainSocket and the
--                      constructor of IoUring, with their system calls in order
-- Socks/Scenario, Examples, Trials, Main/Trial, Stream/Tests, Accepts/Tests, Kernel/Tests
--                      concrete inputs, and the theorems at them
-- Serialization/Result   how a function ends: done, bad_alloc, runtime_error, fault, exhausted
-- Serialization/Unless   a function whose library may fail in one way
-- Serialization/Message  Attachment, Message, MessageVector (hw1-binary-serialization/message/include)
-- Serialization/Message/Print   the operators << (hw1-binary-serialization/message/src/message.cpp)
-- Serialization/Cbor     libcbor as a parameter, and hw1-binary-serialization/wrappers/include/
--                        cbor_wrapper.ipp; Cbor/Laws is what the code relies on of libcbor;
--                        Cbor/Ownership has the objects of class Item and their references,
--                        Cbor/Buffers those of class Buffer and their blocks
-- Serialization/Bson     libbson as a parameter, and bson_wrapper.ipp; Bson/Laws, Bson/Index
-- Serialization/Msgpack  msgpack-c as a parameter, with what the code relies on of it; Message/Msgpack
--                        is MSGPACK_DEFINE and the msgpack functions of message.ipp
-- Serialization/Message/Cbor, Message/Bson   to_cbor_dom, to_cbor_buffer, to_bson_buffer and the
--                        constructors that read (hw1-binary-serialization/message/src/message.cpp);
--                        Encoding says what items and documents stand for, RoundTrip goes both ways,
--                        Failing is about libraries that may fail
-- Serialization/Generate   the generator of random messages (hw1-binary-serialization/generate-data/src/
--                        main.cpp), its bounds and the sizes of its messages (Generate/Values);
--                        Generate/Program is main
-- Serialization/Cbor/Tree, Bson/Tree, Msgpack/Tree, Examples, Message/Print/Tests
--                        small libraries that keep the laws, and two messages
--
-- The members keep the names of the source, less m_. A Session* is a number that is used once, so
-- that a use after the deletion is a fault; a failed assertion, a null pointer and an index out of
-- range are faults too. The calls of handle_client_read on itself, through the functions that read,
-- are bounded by the depth 3: a call with 0 bytes is made only from a later state, and a request,
-- the length of a name and an address may be there already. Events, buffers and counts keep their
-- wrap-around.
--
-- The theorems of Socks/Accepts take any system. The other theorems on the loop take one whose
-- ::socket and whose ::close of an open descriptor succeed, and whose resolver answers with one of
-- the two families of IP; liburing always has an entry to give and submits it.
--
-- In hw1-binary-serialization a cbor_item_t* is the item that it points to, and a bson_t the
-- document that it holds: a function that changes one answers with the new one. A size that is
-- passed as an int is cast, so that the theorems on BSON ask for texts of less than 2^31 bytes, and
-- for attachments of less than 2^32. msgpack-c throws where it is to pack more than 2^32 - 1 chars,
-- bytes or elements, so that the theorems on MessagePack ask for fewer. The loops over a cursor of
-- BSON have a bound on their rounds; more rounds than there are elements are enough. The loops of
-- the generator that draw until a value is accepted have one too, for which the theorems ask that
-- it is enough for the engine. Where a theorem says so, the library has memory, or room, enough.
--
-- Not modelled: a write of the generator to its file that fails, the benchmark and the tests of
-- hw1-binary-serialization; the logger and the handlers of SIGINT and SIGQUIT of
-- hw2-socks5-server, and its threads beyond their start; the exception of io_uring_wait_cqe, which
-- ends the thread; the build.
pub mod Prelude
pub mod Socks
pub mod Serialization
