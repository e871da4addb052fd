-- ===== src/Lib.antt =====
-- The OPC UA PubSub core of node-red-contrib-opcua-suite.
--
-- A publisher builds a NetworkMessage and hands it to encodeNetworkMessage (lib/uadp-encoder.js),
-- which writes it in one buffer, or in several chunk messages where it is longer than the MTU. A
-- subscriber decodes each datagram with decodeNetworkMessage; chunks go to a UadpReassembler
-- (lib/uadp-reassembler.js), whose complete buffers are decoded again. What is published comes from
-- configuration objects that lib/pubsub-config.js validates and completes. The publisher and the
-- subscriber are the nodes nodes/opcua-publisher.js and nodes/opcua-subscriber.js; they share the
-- transport of a nodes/opcua-pubsub-connection.js, which counts them.
--
-- The files:
--   Prelude, Prelude/*: numbers, lists, flag bytes and integers that all parts share.
--   Uadp/Result, Uadp/Bytes, Uadp/Stream: errors, little-endian bytes, and BinaryStream. A write is
--     its bytes or an error, a read is a function on the rest of the buffer; Stream/RoundTrip says
--     that a read takes back a write and how such facts compose; Stream/Buffer is the buffer that
--     _ensureWrite grows.
--   Uadp/Text, Uadp/Guid, Uadp/DateTime: writeString, readString, writeGuid, readGuid, writeDateTime
--     and readDateTime. UTF-8 is written out with the replacement of what is malformed.
--   Uadp/Variant, Uadp/DataValue: _writeVariant, _readVariant, _writeDataValue, _readDataValue.
--   Uadp/DataSet: encodeDataSetMessage and decodeDataSetMessage; Object is the object of the fields.
--   Uadp/Network: the NetworkMessage and its flag bytes; Header, Payload and Codec are the header
--     fields, the bodies, and encodeNetworkMessage, _splitIntoChunks and decodeNetworkMessage.
--   Uadp/Wire, Uadp/Network/Codec/Decode, Uadp/Network/Codec/Split: the theorems on the codec.
--   Reassembler: UadpReassembler, with its clock as an argument; Key is the Map key, Bound and
--     Tiling have the theorems on a push, Delivery and InOrder those on the pieces of a message.
--   Udp: UdpTransport._onDatagram of lib/transports/udp-transport.js; EndToEnd follows a message from
--     encodeNetworkMessage to the subscriber, Mtu has the size of its datagrams.
--   Connection: the connection node; Lifecycle has every sequence of its calls and callbacks as a
--     step relation, Grace the grace window, Throws a transport type that is unknown.
--   Publisher: the publisher node behind its setup, as a state and a function per handler; Json is
--     JSON.stringify and the copy made with it, Emit what _emit ends in, Sequence the numbers, Gate
--     the messages that wait for the transport, Fit what all messages have, Changes, Cyclic and
--     Stuck the cyclic mode.
--   Subscriber: the listener of the subscriber node with the UADP encoding; Filter says what it lets
--     through, EndToEnd follows a message from encodeNetworkMessage to what the node sends.
--   Pool: lib/opcua-pool.js; Pick is the choice of a member, Turns the round, Lifecycle reconnect().
--   Manager: the lifecycle of lib/opcua-client-manager.js, cut at its awaits. Steps has what can
--     happen and what holds of it, Teardown and Attempts the lemmas on each step, Lifecycle the
--     theorems; Delays has the waits, Retry the loop of reconnect().
--   NodeId: parseNodeId and nodeIdToString of lib/opcua-utils.js, with the engine's text of a number
--     that is no safe integer as an argument; RoundTrip is their theorem.
--   Mqtt: the topics and send() of lib/transports/mqtt-transport.js; Topic says what a topic is.
--   Config: the validators and factories; a member of a configuration is any JS value, and a number
--     is a whole number of units of 2 ^ -1074. WriterGroup/Spec, DataSetWriter/RawData and
--     DataSetReader/Timeout say what is valid.
--   Tests files: runs on small values.
--
-- Bounds: the split of a payload runs on fuel, its length, and each round takes a byte. The digits of
-- a key or a NodeId run on fuel n + 1 for the number n. A clock is a function from the number of a
-- call to its time. Integers written to the wire are range-checked as Node's Buffer does, or wrapped
-- where the source uses `>>> 0`.
--
-- Not modelled: the text of errors and warnings; arguments of the codec that are no objects; floats
-- beyond their bit patterns; sockets and brokers; the setup of the nodes from the editor's
-- configuration; the JSON encoding; the operations of the OPC UA client and server, which stand on
-- node-opcua. Objects inherit from Object.prototype alone, and nothing replaces it.
pub mod Prelude
pub mod Uadp
pub mod Reassembler
pub mod Config
pub mod Udp
pub mod Connection
pub mod Publisher
pub mod Subscriber
pub mod Pool
pub mod Manager
pub mod NodeId
pub mod Mqtt
