-- ===== src/Http.antt =====
-- src/http_sse.cpp: the local HTTP server of the observer. Sockets, files and their descriptors belong
-- to the operating system: what the calls on a connection return is a list of turns, in order, and a
-- poll past the last turn times out.
pub mod Conn
pub mod Request
pub mod Reply
pub mod Server
mod Tests
