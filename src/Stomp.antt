-- ===== src/Stomp.antt =====
-- output_stream_stomp.h, output_stream_stomp.cpp: the sink that sends events to a STOMP server.
pub mod Sanitize
pub mod Escape
pub mod Reply
pub mod Header
pub mod Reader
pub mod Machine
pub mod Stream
pub mod Packet
pub mod Connection
pub mod Timeout
pub mod Create
pub mod Greeting
pub mod Exchange
pub mod Sink
