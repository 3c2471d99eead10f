-- ===== src/Node.antt =====
-- The node's side of the graph: aioros/_node/.
pub mod ParamCache
pub mod Client
pub mod Subscriber
pub mod Publisher
pub mod Service
pub mod Registry
pub mod State
pub mod Creation
pub mod Uris
pub mod Handle
pub mod Routing
pub mod Notices
mod Examples
