-- ===== src/Lib.antt =====
-- A model of uquic, a QUIC implementation with configurable fingerprints, in its parts that decode
-- and encode frames and packet numbers, that keep track of received and sent packets, and that limit
-- how much data is sent.
--
-- The parts and how they interact. The frame parser (internal/wire) reads frames off the payload
-- of a packet; it and the frames' `Append` methods use the variable-length integers of quicvarint.
-- The history of received packets (internal/ackhandler) keeps the ranges of packet numbers that
-- have arrived; they are what an ACK frame carries to the peer, which asks the frame for packet
-- numbers. Around it the received packet trackers decide when an ACK is due and what it says, and
-- the handler has one tracker for each packet number space; which 1-RTT packets are confirmed is
-- answered by the sending side, and is an argument here. The history of sent packets holds what
-- awaits an acknowledgement and expects the packet numbers that the generator of the space gives
-- out, and the ECN tracker is told of the packets sent, lost and acknowledged. Over them stands the
-- sent packet handler, with a space for each encryption level: it takes packets that are sent and
-- ACK frames that arrive, detects losses, tells the handlers of frames what was acknowledged and what
-- is lost, measures round-trip times, sets the loss detection alarm, and asks congestion control, through an
-- interface, what may be sent. The short header
-- carries a packet number cut to the length that internal/protocol chooses. The flow controllers
-- (internal/flowcontrol), one for each stream and one for the connection that the streams share,
-- count the data of STREAM frames and decide on MAX_DATA and MAX_STREAM_DATA frames. Hybrid slow
-- start (internal/congestion) judges the round-trip times of a round of ACKs.
--
-- The files.
--   Shared: Boolean tests, lists over the native numbers, results with errors, bits of a byte.
--   Varint: quicvarint/varint.go. `Read`, `Parse`, `Append`, `AppendWithLen` and `Len` are `read`,
--     `parse`, `append`, `append_with_len` and `len`.
--   Wire.Codec: what the parsers share, with `replaceUnexpectedEOF` of
--     internal/wire/frame_parser.go.
--   Wire.AckFrame: internal/wire/ack_frame.go and ack_range.go; the queries and the binary search
--     of `AcksPacket` are in Wire.AckFrame.Query.
--   Wire.Frame: the frame types of internal/wire and the limits of internal/protocol they use.
--   Wire.Control, Wire.Payload: `parse…Frame` and `Append` of the other frames, as
--     `parse_…_frame` and `append_…_frame`; Wire.Payload has the frames that carry bytes, and the
--     splitting of a STREAM frame.
--   Wire.Parser: `FrameParser` of internal/wire/frame_parser.go; `ParseNext` is `parse_next`.
--     Wire.Parser.Append is the interface `Frame` of internal/wire/frame.go.
--   AckHandler.History: internal/ackhandler/received_packet_history.go. `ReceivedPacket`,
--     `DeleteBelow` and `IsPotentiallyDuplicate` are `received_packet`, `delete_below` and
--     `is_potentially_duplicate`; `AppendAckRanges` and `GetHighestAckRange` are in
--     AckHandler.History.Acks.
--   AckHandler.Tracker, AckHandler.Handler: received_packet_tracker.go and received_packet_handler.go
--     of internal/ackhandler. `ReceivedPacket` and `GetAckFrame` are `track_packet` and `take_ack` for
--     the Initial and Handshake spaces, `track_app_packet` and `take_app_ack` for 1-RTT, and
--     `receive_packet` and `get_ack_frame` for the handler.
--   AckHandler.Sent: internal/ackhandler/sent_packet_history.go and packet.go. `Remove` and
--     `DeclareLost` are `remove` and `declare_lost`.
--   AckHandler.Space: internal/ackhandler/packet_number_generator.go, and `PopPacketNumber` of
--     sent_packet_handler.go, as `pop_packet_number`.
--   AckHandler.Rtt: internal/utils/rtt_stats.go. `UpdateRTT` and `PTO` are `update_rtt` and `pto`.
--   AckHandler.Sender: internal/ackhandler/sent_packet_handler.go, its state `Sender` and what its
--     operations share. `detectAndRemoveAckedPackets` is in AckHandler.Sender.Acks, `detectLostPackets` and
--     `detectLostPathProbes` in AckHandler.Sender.Losses, the timer in AckHandler.Sender.Alarm, `SentPacket`
--     and `ReceivedAck` in AckHandler.Sender.Calls as `send_packet` and `receive_ack`, and the other methods in
--     AckHandler.Sender.Control under their names, with `PopPacketNumber` as `pop_number`;
--     `ResetForRetry`, `MigratedPath` and the constructor are in AckHandler.Sender.Restart. A call on a frame handler is an entry of `notices`.
--   AckHandler.Ecn: internal/ackhandler/ecn.go. `SentPacket`, `Mode`, `LostPacket` and
--     `HandleNewlyAcked` are `sent_packet`, `mode`, `lost_packet` and `handle_newly_acked`.
--   Congestion: internal/congestion/hybrid_slow_start.go. `ShouldExitSlowStart` is
--     `should_exit_slow_start`.
--   Protocol.PacketNumber, Protocol.StreamId: packet_number.go, stream.go and perspective.go of
--     internal/protocol.
--   Wire.PacketNumber, Wire.ShortHeader: the packet number of extended_header.go and header.go, and
--     short_header.go, of internal/wire.
--   FlowControl.Base, FlowControl.Connection, FlowControl.Stream: base_flow_controller.go,
--     connection_flow_controller.go and stream_flow_controller.go of internal/flowcontrol, with the
--     methods under their names (`GetWindowUpdate` is `get_window_update`). FlowControl.Session is a
--     connection with any number of streams, and the sequences of calls on them.
-- The children of these modules named RoundTrip, Encode, Decode, Ranges, Append, Total, Delay,
-- Delete, State, Query, Composite, Window, Balance, Totals, Sending, Forget, Queue, Acks, Spaces,
-- States, Sound, Marking, Entries, Removal, Calls, Sends, Steps, Rounds, First, Flight,
-- Yield, Covered, Acked, Timer, Migration, Picked,
-- Paid, Charged, Kept, TimedOut, Dropped, Restarted, Settled, Reached and Added hold lemmas and theorems,
-- those named Runs concrete runs.
--
-- Conventions. A byte slice is a list of natural numbers, bytes where a hypothesis says so. A
-- pair of a value and an error is a `Result`; a panic is an error too. Arithmetic that can wrap is
-- written modulo 2^64. Packet numbers are natural numbers, stream IDs the bits of an int64;
-- `none` is InvalidPacketNumber, a zero time, or a nil pointer; in the records of sent packets, of their
-- spaces and of the alarm a time is a number, and 0 the zero time. The two means that `UpdateRTT` takes in
-- floating point, and the random numbers drawn, are arguments.
--
-- Bounds. Byte counts are natural numbers and do not wrap; they are at most 2^62 in every frame. The
-- products of window sizes with 0.75 and 1.5 are exact in floating point for windows below 2^51; the
-- product in the auto-tuning that is not exact is a parameter, as is the round-trip time.
--
-- Fuel. The loop of `ParseNext` has the length of its input as fuel, and each round that goes on
-- takes a byte; a loop without fuel would be `stuck`, an answer of its own. The binary search of
-- Go's `sort.Search` has the number of entries as fuel, and halves the interval each round. The loop
-- over ACK ranges recurs on the count that the frame gives.
--
-- Not modelled. The reuse of frames and buffers through pools, as it is not visible in the values;
-- timers, sockets, goroutines and logging, as they are outside what values can say; the TLS and
-- AEAD packages, which are not part of the repository. The long packet headers and the transport
-- parameters, the rest of congestion control (a parameter of the sending side), the streams
-- themselves and HTTP/3 have no model here.
pub mod Shared
pub mod Varint
pub mod Protocol
pub mod Wire
pub mod AckHandler
pub mod Congestion
pub mod FlowControl
