-- ===== src/Discovery.antt =====
-- Service discovery: src/zeroconf/mdns_client.cpp and src/zeroconf/mdns_service.cpp.
pub mod Client
pub mod Keeping
pub mod Announcing
pub mod Details
pub mod Unresolved
pub mod Repeats
pub mod Responder
pub mod Exchange
pub mod Meeting
pub mod Goodbye
pub mod Sockets
pub mod Opening
mod Tests
