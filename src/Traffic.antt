-- ===== src/Traffic.antt =====
-- From the packets to the registry: the XDP program, and the loop of the application that handles what
-- it submits.
pub mod Hosts
