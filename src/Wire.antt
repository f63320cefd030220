-- ===== src/Wire.antt =====
-- Reading from and writing to a stream socket: Source/SocketReaderWriter.hpp, and the parser of
-- Source/ClientServerProtocol.hpp.
pub mod Writer
pub mod Reader
pub mod Parser
