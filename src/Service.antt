-- ===== src/Service.antt =====
-- The loop of src/service/winpinator_service.cpp that hands events to the transfer manager, together
-- with the calls of other hosts and of the user interface, as steps of one system.
pub mod Events
pub mod Invariant
pub mod Inputs
pub mod Main
pub mod Turns
mod Tests
