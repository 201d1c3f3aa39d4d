-- ===== src/Lib.antt =====
-- A model of Teaf (the repository's trunk/teaf(isgw)), a service framework with one process and
-- several threads: an interface thread cuts the bytes of each TCP connection into messages and
-- queues them, worker threads check, process or forward each message, and an acknowledgement queue
-- takes the answers back to the connections. All paths below are relative to trunk/teaf(isgw).
--
-- Amount         comm/cmd_amount_contrl.{h,cpp}, class CmdAmntCntrl: flow control per command.
--                `Amount.Entry` has the entry of one command (CmdStaticsNode) and what get_status,
--                set_status and amount_inc do to it; `Amount` has the operations of the controller,
--                under the names of the source; `get_conf_int` is the one of easyace/ace_conf.cpp.
--                `Window.request` is how frm/isgw_mgr_svc.cpp uses it: check() asks get_status
--                before, process() calls amount_inc after a request.
-- Intf.Frames    frm/isgw_intf.cpp, handle_input with MSG_LEN_SIZE defined: `drain` is its loop,
--                `complete` and `settle` what stands before and behind it.
-- Intf.Text      frm/isgw_intf.cpp, handle_input without MSG_LEN_SIZE: messages that end with
--                MSG_SEPARATOR. `text_loop` is its loop, over the whole buffer with the bytes of
--                earlier messages in it, `text_received` what is done with received bytes.
-- Intf.Request   the rest of frm/isgw_intf.cpp: `process` makes a request of a message and puts it
--                into the queue of Svc; `is_auth`, `open_conn` (open) and `handle_timeout`.
--                `Request.Datagram` is frm/isgw_uintf.cpp, the messages of a UDP datagram.
-- QMode          comm/qmode_msg.{h,cpp}, class QModeMsg: a request as `name=value` fields, which a
--                worker parses. `set_body` and `parse_msg` fill the map of fields and the command that
--                Svc dispatches on.
-- Util           comm/sys_comm.cpp and comm/isgw_comm.cpp, namespace EASY_UTIL: `Url` the escapes
--                (Encode, Decode, ...), `Hex` the hexadecimal forms (Base64Encode, bin2hex, ...), `Split`
--                split and split_ign, `Maps` string_to_map, map_to_string and parse (`string_to_numbers`
--                and `numbers_to_string` are the overloads for numbers, `Maps.Dict` is std::map),
--                `Replace` Replace and replace_tag, `Numbers` atoi and decimal digits.
-- ConnMgr        comm/plat_conn_mgr_ex.{h,cpp}, class PlatConnMgrEx: the pool of connections to the
--                back-end servers that the processing code calls. `ConnMgr` has the choice of a
--                server and a slot, `Calls` the public calls (`get_ip_idx_of` and `send_to` are the
--                overloads that take an address), `Init` the constructors and init.
-- Stat           comm/stat.{h,cpp}, class Stat: the counters of requests and errors in a mapped file
--                that the other parts increment; the file is a function from the index of a word.
-- Svc            frm/isgw_mgr_svc.cpp, class ISGWMgrSvc: `process`, with `check` before and `forward`
--                inside, is what a worker thread does with one request; `dispatch`, `answer` and
--                `serve` are parts of it. It uses Amount for flow control and Stat for counts; the
--                handlers of the application and the connections to routers are arguments.
-- Ack            frm/isgw_ack.cpp, class ISGWAck, with send_n of frm/ace_sock_hdr_base.cpp: `putq`
--                takes the answers of Svc, and the interface thread's loop `handle_input` sends each
--                to the connection that asked.
-- Ibc            frm/ibc_mgr_svc.{h,cpp}, class IBCMgrSvc, comm/ibc_prot.h and comm/ibc_oper_base.cpp:
--                the parts of a batch request are processed one by one and their results joined to one
--                answer, which goes to Ack. `Records` has the records and the search in an ordered
--                map; `StdMap` is the std::map under IBCR_COMP, ordered where no two keys share a
--                sequence number, and an arbitrary `Wild` where two do, since the behaviour is then
--                undefined. `Encode` is encode_ppack, `absorb` and `settle` are what process does
--                under its lock, and a `round` is one of ACESvc::svc (easyace/ace_svc.h). `Alone`
--                describes a batch request by itself.
-- Bitmap         comm/shm_bitmap_manager.{h,cpp}, class Shm_Bitmap_Manager: one bit for each number
--                in shared memory. `guarded` is the common body of get_bit, set_bit and clr_bit;
--                `open_shm` is open. It stands alone: applications call it.
-- ObjectArray    easyace/ace_object_array.h, class ACE_Object_Array: a ring of message objects, an
--                alternative to the queue that ISGWMgrSvc gives its objects back to.
-- ObjectQue      easyace/ace_object_que.h, class ACE_Object_Que: the queue of blank message objects.
--                Intf, Svc, Ack and Ibc take what it answers as an argument.
-- Prelude        numbers, lists and C integers that the parts share.
-- Tests          concrete runs, and instances of the results.
--
-- Machine integers. An `int` that takes signed values is a ℤ; unsigned arithmetic that can wrap is
-- written with `% 2 ^ 32`; counters that the code only increments are natural numbers, and their
-- overflow, undefined in C++, is left out. Lengths of messages are bounded by the buffers, so the
-- sums of lengths that the readers form do not wrap.
-- Fuel. `drain` takes one more than the number of buffered bytes, of which each round takes at least
-- one; `handle_input` of Ack the length of the queue; `count_loop` the rounds of the loop. The loops of
-- Util and `text_loop` take one more than the length of the text, of which each round but the last
-- takes at least one character. `decimal` takes ten rounds, one for each digit of a 32-bit number.
-- Not modelled: logging, sockets, threads and locks of ACE, MySQL, redis, Lua and dynamic
-- libraries, and what only calls them: the start of the application, its signals and its handlers.
-- What a socket returns, the clock and the handling of a message are arguments.
pub mod Ack
pub mod Amount
pub mod Bitmap
pub mod ConnMgr
pub mod Ibc
pub mod Intf
pub mod ObjectArray
pub mod ObjectQue
pub mod Prelude
pub mod QMode
pub mod Stat
pub mod Svc
pub mod Tests
pub mod Util
