-- ===== src/Pmxcfs.antt =====
-- internal/pmxcfs: the reader of the cluster filesystem.
pub mod VmConf
pub mod Members
