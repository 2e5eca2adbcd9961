-- ===== src/Lib.antt =====
-- A model of the SMPP server, with the theorems that make it correct.
--
-- The server has three processes: smpp-esme talks SMPP to the clients (ESMEs), smpp-smsc to the
-- upstream SMSCs, and smpp-dbbox to the database. This library models the first two. A client's
-- bind is decided against the accounts of the configuration and adds a session to the list of accounts
-- that are online; a submit on a session is checked and routed to SMSCs; the SMSC process reports
-- its connections, which changes the sessions' status; the end of a thread removes its session. In
-- smpp-smsc a submit is routed to the queue of a connection, sent within the connection's window, and
-- answered by the SMSC, or goes back to the queue of the process.
--
--   Gwlib, Samples   the calls of gwlib (a copy of Kannel's library) are the fields of the instance
--                    argument `Gwlib`, with the behaviour that the program relies on as laws; clock,
--                    thread, date check and sender-id service are the fields of `Env`. Samples.Bytes
--                    is an instance over lists of bytes, by which the tests run the model.
--   Session, Ids     ESME_TX and ESME_RX of smpp-esme/esme.h, `allocate_session_id` of
--                    smpp-esme/esme.c. A list under a lock is a List, a pointer that may be NULL an
--                    Option, a counter a number modulo 2 ^ 64.
--   Config           struct Smsc_Client, `create_onetrans`, `verify_config_para` and
--                    `smpp_client_find_username` of smpp-esme/config.c.
--   Smscs            `smsc_list` of smpp-esme/esme.c, kept by `prepare_smsc_list` and
--                    `update_smsc_list`, read by `is_smsc_present` and others.
--   Registry         `esme_list` with `is_present_esme`, `get_session_str`, `esme_destroy`,
--                    `extract_esme`, `update_esme_conn` and `max_submits_unct_account`.
--   Authorise        `authorise_user`. Its write lock makes each bind one step; the checks before the
--                    lock read the same list here, so two binds that race are not covered.
--   Address, Pdu, VerifyPdu   `convert_addr_from_pdu` and `verify_pdu_para`.
--   Route            `rout_pdu` and the series that `init_connect_ip` reads. The two char arrays hold
--                    indices as signed bytes; the theorems need at most 128 SMSCs and 254 preferred
--                    names, below which no index turns negative and no array overflows.
--   Messages, Submit `handle_submit_sm` of smpp-esme/smpp_esme.c with the messages that it sends to the
--                    other processes. A session is an element of its account's list, so a write
--                    through its pointer replaces that element.
--   Bind, Dispatch   the bind handlers, `handle_pdu` and `handle_pdu_bind` with their tables. A PDU is a
--                    constructor with the fields that its handler reads; what is written to the
--                    connection is a list of replies.
--   Delivery, Threads   `write_esme_conn` of smpp-esme/esme.c and the loop of `receive_smpp_thread` of
--                    smpp-esme/smpp_esme.c over a list of rounds: what it reads, and what other threads
--                    have done to the session before it goes on.
--   Requests         `handle_request` of smpp-esme/smpp_esme.c: the messages of the SMSC process and of
--                    the database, which move the two lists above and queue deliveries on sessions.
--   System           the steps that the threads take on the list of accounts, in any order. Each is taken
--                    as one, under the list's lock.
--
--   Client           smpp-smsc: Msg is the message of smpp-smsc/include/msg.h, Conn the connection
--                    of smpp-smsc/smscconn.c with its SMPP data, Send `send_messages` of
--                    smpp-smsc/smsc_smpp.c, Handle its `handle_pdu` with the receipts of Receipt, Io
--                    the steps of its `io_thread` with `do_queue_cleanup` and the shutdown, Outgoing
--                    the queue of smpp-smsc/smsc.c with `smscconn_send_failed`, Mis the rows for the
--                    database, Rout `smsc2_rout`, Router one round of `msg_router`, and Request
--                    `handle_request` of smpp-smsc/smpp_smsc.c. The PDU codec and the regular
--                    expressions are the fields of the record `Calls`; Samples.Upstream has one. An
--                    operation that goes through a dictionary's keys takes their order as an argument
--                    where the order is seen. A shutdown takes where the thread reads `quitting`.
--
-- A result `none` of an operation is a read through NULL, a failed assertion or another fault of the
-- code, such as a write out of an array. Loops are structural recursion on the list or on the number
-- of rounds that the code makes. Only `smsc2_rout`, which calls itself, takes fuel, and one unit is
-- enough.
--
-- Not modelled: logging, freeing of memory, sockets, the opening of connections in smpp-smsc and
-- its configuration, its commands that stop and restart connections by their id, the HTTP pages,
-- and the database process. What two threads do at once is an order of steps, each of which is
-- taken as one.
pub mod Address
pub mod Authorise
pub mod Bind
pub mod Client
pub mod Config
pub mod Delivery
pub mod Dispatch
pub mod Gwlib
pub mod Ids
pub mod Messages
pub mod Pdu
pub mod Prelude
pub mod Registry
pub mod Requests
pub mod Route
pub mod Samples
pub mod Session
pub mod Smscs
pub mod Submit
pub mod System
pub mod Threads
pub mod VerifyPdu
