-- ===== src/Protocol.antt =====
-- akumulid: the reading side of the protocol that clients write data points with.
pub mod ByteStream
pub mod Window
pub mod MemStream
pub mod ReadBuffer
pub mod Resp
pub mod Examples
