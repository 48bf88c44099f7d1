-- ===== src/Gateway.antt =====
-- src/gateway: the devices of one node, the cluster, and the server's handlers.
pub mod Devices
pub mod Cluster
pub mod Server
