-- ===== src/Rpc.antt =====
-- src/service/warp_service_impl.cpp: the calls that other hosts make, class `WarpServiceImpl`.
pub mod Requests
pub mod Avatar
pub mod Duplex
mod Tests
