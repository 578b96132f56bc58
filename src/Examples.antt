-- ===== src/Examples.antt =====
-- The theorems at concrete inputs, and tests of the definitions.
mod Backup
mod Hooks
mod Conversion
mod MysqlUser
mod Utils
mod Cluster
mod Status
mod Webhook
mod Pods
mod Volumes
mod Replica
mod Sidecar
mod Probes
mod UserQuery
mod StatefulSet
mod Conf
