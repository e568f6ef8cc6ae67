-- ===== src/Lib.antt =====
-- A verification of the news server: a TCP/UDP message broker in which clients subscribe to topics
-- (SUBSCRIBE, UNSUBSCRIBE over framed TCP) and get the datagrams that arrive on those topics, with
-- store-and-forward for clients that are away.
--
-- The parts of the program and their files:
--   Framing.antt    BufferedTcpSocket.cpp, BufferedTcpSocket.h. One function per method, on a record of
--                   the class's fields; the reference parameters of read_size and
--                   read_current_packet come back as results. Framing/Spec is the protocol of
--                   readme.txt as a machine on bytes; Valid, Header, Refines, RoundTrip and Answers
--                   hold the invariant and the proofs.
--   Multi.antt      MultiSocket.cpp, MultiSocket.h, and max_int of utils.cpp. scan is
--                   this_method_does_something_important_with_the_file_descriptors, one scan_fd for
--                   each descriptor; close is close(int) and close_all is close(). Proofs in
--                   Multi/Invariant, Scan, Queued, Kinds, Next, Reach and Waiting.
--   App.antt        tcp_app.cpp, tcp_app.h: the generators of client packets. App/News holds
--                   get_sendable_news and get_news_topic of subscriber.cpp, and App/Display its
--                   parse_subscriber_news, with my_pow of utils.cpp; the proofs are in App/Topics,
--                   App/Shown, App/Values and App/Numbers.
--   Server.antt     server.cpp, with the types of subscriber.h: Server/State (the maps topic_map,
--                   clients and ids_map of main), Commands (process_tcp_client_packet), Delivery
--                   (send_packet_to_sub, send_news_to_subscribers, unload_news_queue), Handler
--                   (handle_tcp_app_recv, the prints, the branch of main for a closed connection),
--                   Main (the loop of main) and Entry (its command line). Server/Abstract is a
--                   broker as functions. Refines and History relate the maps to it, and Awaiting,
--                   Simulation and Session the rounds of the loop. Kept says what it takes for a
--                   property of the maps to hold in every run, Processing, Safety and Rounds carry it
--                   through the handlers and the loop, and Invariants fills it. Other proofs in Wire
--                   (what a generated packet is read as), Auth, Linked, Subscribing, Deliveries,
--                   Reconnect, Returning, Declining, Requests, Redelivery, Receiving and Exit.
--   Client.antt     parse_subscription_cmd of client.cpp, and in Client/Main its main: join up to the
--                   authentication, handle_fd for a round of the inner loop, work for both loops.
--                   Client/Entry is main from its command line on. Client/Invariant, Keeping and Rounds
--                   hold what every round keeps; Words, Parse, Buffer, Bounded, Typed, Joining and Shows hold the
--                   other proofs, up to what the server reads of a line that the user types, and of
--                   the packet by which the client authenticates.
--   Topic.antt      topic.cpp, topic.h: parse_topic and parse_topic_value_to_string, on the memory of
--                   the struct. Proofs in Topic/Agrees, Bounds and Errors.
--   Utils.antt      print_hex of utils.cpp.
--   Base.antt       what the parts share: bytes and words, C strings, std::map and its order,
--                   the command line with atoi, lists, and Outcome.
-- The server calls MultiSocket, which calls BufferedTcpSocket; both sides of a connection frame by
-- BufferedTcpSocket::send and ::recv.
--
-- Conventions. A number is a natural number, with its wrap-around written out where the C++ type has
-- one; descriptors and results of calls are integers. A buffer is the list of its bytes. An Outcome is
-- a result, `die` (the macro DIE, which exits), `fault` (an access outside of its memory) or
-- `out_of_fuel`. What a system call answers is an argument of the operation that makes it, and so is
-- what memory holds before it is written (Framing.Memory). The host is little-endian, as on the
-- platforms that the Makefile is for. An event of the log is a system call that sends or closes, or a
-- line on the console, in the order of the program.
--
-- Fuel. BufferedTcpSocket::read has two rounds for each byte of its chunk and two more: a round takes
-- a byte, or ends a packet of length 0 and takes none. The loop over the descriptors has fdmax + 1
-- rounds. select and the loops of the two main functions run on the list of what the world answers,
-- and are out of fuel at its end, where the program would wait.
--
-- Not modelled: memory exhaustion; descriptors of FD_SETSIZE (1024) or more, on which FD_SET is
-- undefined; the fields of serv_addr but for the address and the port; and the scripts. inet_aton is
-- an argument. The arithmetic of double and its output are the interface App.Display.Doubles.
pub mod Base
pub mod Framing
pub mod Multi
pub mod App
pub mod Topic
pub mod Utils
pub mod Server
pub mod Client
