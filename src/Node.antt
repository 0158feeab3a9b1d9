-- ===== src/Node.antt =====
-- main/node: how a node joins the other parts.
pub mod Subscriber
