-- ===== src/Tlsutil.antt =====
-- internal/tlsutil: the TLS material of the cluster.
pub mod Loader
pub mod Issue
