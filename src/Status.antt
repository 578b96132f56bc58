-- ===== src/Status.antt =====
-- mysqlcluster/syncer/status.go: the status syncer, over the status types of
-- api/v1alpha1/mysqlcluster_types.go.
pub mod Types
pub mod Conditions
pub mod Nodes
pub mod Xenon
pub mod Pods
pub mod Rebuild
