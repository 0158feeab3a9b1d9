-- ===== src/Tests.antt =====
-- Runs of the modelled code on small inputs, and instances of the theorems.
mod Ids
mod Books
mod Files
mod Nodes
mod Products
mod Queues
mod Repos
mod Wire
mod Datagrams
mod Peers
mod Publishers
mod Routes
