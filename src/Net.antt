-- ===== src/Net.antt =====
-- The event loop's side of a connection: Channel, base/EpollPoller, TcpConnection, Connector and
-- EventLoopThreadPool, EventLoop.
pub mod Channel
pub mod Poller
pub mod Connection
pub mod Connector
pub mod LoopPool
pub mod MpscQueue
pub mod EventLoop
pub mod Server
mod Tests
