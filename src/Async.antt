-- ===== src/Async.antt =====
-- asio/Async: the asynchronous TCP server, one module for each class.
pub mod Host
pub mod Node
pub mod Read
pub mod Send
pub mod Logic
pub mod Server
