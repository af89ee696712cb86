-- ===== src/Lib.antt =====
-- A model of the portable parts of zephyr-common, a collection of modules for Zephyr
-- applications, and proofs of what they do.
--
-- The parts and their files:
-- - Common: the shared names; C arrays as lists (Common/Lists), copies that may leave an array
--   (Common/Memory), fixed-width words and error codes (Common/Words), Boolean tests
--   (Common/Tests).
-- - Ring: the circular storage of depth + 1 cells that modules/SwFifo and modules/CircBuffer have
--   in common; Ring/Copy and Ring/Transfer relate the one or two memcpy calls of a transfer to
--   writes and reads of one cell after another, Ring/Held is the queue between two indices.
-- - SwFifo: modules/SwFifo/src/SwFifo.c, the functions SwFifo_* by their last word, circWrite as
--   circ_write, inc_wrIdx and inc_rdIdx as inc_idx. SwFifo/Queue is what a fifo promises.
-- - CircBuffer: modules/CircBuffer/src/CircBuffer.c, the functions CircBuffer_* by their last
--   word.
-- - Slip: modules/slip/src/slip.c. slip_framer is framer, with its loop framer_from;
--   slip_deframer is deframer, with its while loop deframer_loop on fuel (4 rounds, which are
--   enough for every call) and the loops of its states find_start and find_end. Slip/Frame is
--   what a frame is, Slip/Decoder a receiver of single bytes without fifo or buffers.
-- - SwTimer: modules/SwTimer/src/SwTimer.c, the functions SwTimer_* by their last word, DELTA as
--   delta; a reading of k_cycle_get_32 is an argument. SwTimer_sleepUs is sleep_from, on as many
--   polls as it is given.
-- - Cobs: modules/Cobs/src/Cobs.c. Cobs_encode is encode, with its loop encode_from; Cobs_decode
--   is decode, with its while loop decode_from on fuel (one round for each byte of the input
--   array, which is enough since a round moves the code word by one byte or more) and its for
--   loop copy_data. Cobs/Chunks is what an encoding is, Cobs/Steps has the branches of the
--   encoder's loop and Cobs/Rounds a round of the decoder's.
-- - CobsFrame: modules/Cobs/src/Cobs_frame.c. Cobs_framer is framer, Cobs_deframer is deframer
--   with its loops look_for_sof, look_for_eof and deframer_loop. The fuel of the while loop is 5:
--   from INIT a call takes one round in each of the five states at most, or a second one in
--   FIND_SOF, which returns since the fifo is empty then. A state byte outside the enum, which no
--   call leaves, loops forever and is out of fuel here.
-- - CList: modules/CList/include/CList.h. The store is the two links of every address, and each
--   function and macro has its name. The loops of CLIST_ITER and CLIST_FLUSH, visited and flush,
--   are on fuel: one more than the number of nodes is enough.
-- - Random: modules/Random/include/Random.h, the macros by their names. Common/World has the
--   values that the random generator and the cycle counter give, one after another, and effects
--   that read them.
-- - Ws2812Led: modules/WS2812Led. Ws2812Led/Colour is the colour arithmetic, Ws2812Led/Segment
--   the segments and the methods that set pixels, Ws2812Led/Gradient the gradients and blend,
--   Ws2812Led/Effects the effects, each by its name with its parts _start (the flag init) and
--   _step (a step of the timer), and segment_loop as segment_pass for one round, Ws2812Led/Strip
--   led_main (led_main_start, then led_main_round for one round) and the functions WS2812Led_* by
--   their last words. The methods are called between the rounds of the tasks.
-- - TcpSocket: modules/TcpSocket/src/TcpSocket.c, the functions TcpSocket_* by their last word,
--   with the loop write_from of TcpSocket_write on fuel: a round for each byte and one more. The
--   network stack is the records Net and Listener.
-- - TcpServer: modules/TcpServer/src/TcpServer.c and modules/TcpEcho/src/TcpEcho.c. The inner
--   loop of tcp_server_task is connection, on fuel, with round and call_back, and the outer one
--   accept_rounds, for as many rounds as are asked for, with accept_round. The fuel of a
--   connection cannot be bounded in general, since a peer may send forever; TcpServer/Echo has it
--   for the bytes of a peer that closes.
-- - PbGeneric: modules/PbGeneric/src/PbGeneric.c, the functions Pb_* by their last words. The
--   codec of nanopb is the record Codec.
-- - ProtoRpc: modules/ProtoRpc/src/ProtoRpc.c. ProtoRpc_exec is exec, in the parts query, call
--   and run_handler. Its two buffers for messages hold values of the generated types.
--   ProtoRpc/Replies has IsCodec, what nanopb documents.
-- - TcpRpcServer: modules/TcpRpcServer/src/TcpRpcServer.c, rpc_callback with its end send_reply:
--   Cobs_deframer, ProtoRpc_exec, Cobs_framer and TcpSocket_write one after another.
-- - RtosUtilsRpc: modules/RtosUtils/src/RtosUtilsRpc.c, thread_info_cb and getSystemThreads.
-- - TraceRam: modules/TraceRam, TraceRam.c and TraceRam_backend.c, over CircBuffer.
-- - SystemRpc: modules/SystemRpc/src/SystemRpc.c, the five handlers by their names.
--   SystemRpc/Drain has a client that calls getnexttraceram again and again.
-- - EthSerial: drivers/net/eth_serial/src/eth_serial.c. eth_serial_send is send, with its loops
--   gather and gather_bytes, and eth_serial_iface_init is iface_init; recv_cb and rx_thread have
--   their names, the latter for one round of its loop, with rx_item for the part behind the wait.
--   EthSerial/Pool has what the kernel documents of the slab and the fifo, EthSerial/Branches the
--   interleavings of callback and thread.
-- - MqttClient: modules/MqttClient/src/MqttClient.c. event_handler, call_mqtt_input and
--   wait_poll_input have their names, MqttClient_connect is connect, MqttClient_publish
--   publish_topic, MqttClient_setTopic set_topic, and client_round a round of client_thread. The
--   library is the record Mqtt.
--
-- A struct is a record, a function that changes it returns the new record, an array is the list
-- of its cells, and an access outside an array is the result none. Indices and sizes are native
-- numbers with the wrap-around of their C type written out. An int result is a Ret: ok with a
-- count, or err with a code. Memory allocation is a parameter.
--
-- Not modelled: log messages, names that serve them, and mutexes (a call is taken as a whole);
-- the macros of CList.h that only cast an entry; the resolvers of the callsets; the initialisers
-- of TcpRpcServer, TcpEcho and MqttClient; modules/NvParms; modules/WifiConnect; and the code
-- that only passes calls on to the network stack or the kernel (UdpSocket, the UDP servers,
-- RtosUtils).
pub mod Common
pub mod Ring
pub mod SwFifo
pub mod CircBuffer
pub mod Slip
pub mod SwTimer
pub mod CList
pub mod Random
pub mod EthSerial
pub mod TcpSocket
pub mod TcpServer
pub mod MqttClient
pub mod PbGeneric
pub mod RtosUtilsRpc
pub mod ProtoRpc
pub mod TraceRam
pub mod SystemRpc
pub mod TcpRpcServer
pub mod Ws2812Led
pub mod Cobs
pub mod CobsFrame
