-- ===== src/Inet.antt =====
-- main/inet: the pool of ports and the byte streams of sockets.
pub mod PortPool
pub mod TcpSock
pub mod UdpSock
