-- ===== src/Lib.antt =====
-- The auction server and the client of this repository: users, auctions and bids kept in the server's
-- file system, the requests that clients send by datagrams (UDP) and by connections (TCP), and the
-- commands of a user at the client.
--
-- The parts and how they interact:
--   * World: the directories server/users and server/auctions as association lists in the order of
--     creation, with the clock. A function of the server is an action `M A`, from a world to a result and
--     the next world, or to `none` where the C code has undefined behaviour (a null stream or
--     directory). World/Platform has the calls that depend on the system: localtime with strftime,
--     and the order of readdir. World/Ends and World/Mights state what an action
--     leaves, with and without the claim that it returns.
--   * Text: bytes, atoi, and what printf and scanf do with decimal numbers and words.
--   * Socket: read_field, store_file and write_tcp of server/aux_functions.c, on the bytes of a
--     connection. The kernel's choice of how many bytes each read returns is part of the state.
--   * Input: server/input_funcs.c, the fields of datagrams (Udp) and the tests of arguments (Verify).
--   * Users: the directory of a user, server/aux_functions.c.
--   * Auctions: the rest of server/aux_functions.c. Files has the texts of the START, END and bid
--     files; Lifecycle ongoing_auction and close_auction; Bids bid_accepted; Create create_auction;
--     Listing the lists with their states; Record get_auc_info; Asset the transfer of the asset
--     file. Sound says what a world of this server looks like and how it may change.
--   * Udp: server/udp_functions.c. Session has login, logout and unregister, and Session/Accounts the
--     transition system that they implement; Queries the lists; Dispatch process_udp_request of
--     server/server.c.
--   * Tcp: server/tcp_functions.c, a module for each handler, and Dispatch process_tcp_request of
--     server/server.c.
--   * Server: the requests that the main loop of server/server.c serves, one at a time, as steps of the
--     world, and what holds after every run of them. Server/Locks has the processes that main forks
--     for connections, with lock_dir and unlock_dir of server/aux_functions.c; Server/Options the
--     arguments of the program.
--   * Client: client/functions.c, client/aux_functions.c and client/client.c, with the server at the other
--     end: a command of the client is an action on the server's world. Buffer has verify_buffer and
--     read_buffer_token; Listing and Lists the lists of auctions and bids; Record showRecord, as a
--     machine on the tokens of a reply, with Record/Reply for the text that the server sends and
--     Record/Whole for both together; Session login, logout and unregister, with Session/Agrees for the user at the client against the account
--     on the server; Requests the texts that are sent, with Requests/Received for what the server does
--     with them; Answers what is printed of short replies; Asset showAsset; Open openAuction; Commands
--     closeAuction, bid and showRecord; Words the sscanf calls; Network connect_UDP and Connection
--     connect_TCP; Main the options and the loop of main.
--   * Tests: worlds and requests, and the theorems at them.
-- The functions have the names of the C functions. A handler's reply is its result.
--
-- Bounds and fuel: the loop of read_field makes at most size + 1 rounds, which is the loop's own
-- bound. The loop of store_file has the announced size as fuel, which is enough since each round
-- reads at least one byte. The loops that print a list or a record have the length of the reply as
-- fuel, which is enough for the lists and records of the server, whose tokens take two bytes or
-- more with what separates them. Numbers are natural numbers: the checked arguments have at most
-- eight digits, which an int holds. Only the seconds of a bid or of an END file, and what a user types, can be negative.
-- A datagram is its bytes before the first NUL, where the string functions of C stop; a field of a
-- connection may hold a NUL, and its handler uses it up to there. Texts that do not fit the arrays
-- of get_auc_info, or the status[9999] of a reply, give `none` too; a reply only grows until it is
-- sent, so that the test stands where it is complete.
--
-- At the client, `none` also stands for a word or a reply that does not fit its array, for a
-- variable that sscanf leaves unset, and for a token that runs on behind the text. What it prints
-- is a list of bytes. The directory client/assets has no directories in it, and
-- client/local_assets has files only, of less than 2 GB; the name of a file is looked up there as
-- it is typed.
--
-- Not modelled: the set-up of sockets on both sides, with name look-up and time-outs. At the
-- client a request is delivered and answered, and a connection is made and written to whole. The
-- failure of a write to the file system, of fork and of the locks is not modelled either. In Server
-- a request is served as a whole; the program serves datagrams beside the processes of its
-- connections, and without their locks.
pub mod Prelude
pub mod Text
pub mod Input
pub mod Socket
pub mod World
pub mod Users
pub mod Auctions
pub mod Udp
pub mod Tcp
pub mod Server
pub mod Client
pub mod Tests
