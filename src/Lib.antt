-- ===== src/Lib.antt =====
-- The operator for RadonDB MySQL clusters on Kubernetes. Its controllers watch MysqlCluster, Backup
-- and MysqlUser objects. The cluster controller runs a row of syncers: one for the StatefulSet, one
-- for each service, secret and configuration, and last the status syncer, which looks at the pods,
-- the xenon raft and the MySQL servers and writes the status that the next round starts from.
-- Sidecars, probes and backup jobs run in the pods.
--
-- Files, and the code that they model:
--
--   Prelude     numbers, lists, byte strings, decimals and string maps as Go's library has them
--   Utils       utils/common.go: Min, Max, GetOrdinal, StringInArray, StringDiffIn
--   Cluster     mysqlcluster/mysqlcluster.go over api/v1alpha1/mysqlcluster_types.go: names, labels,
--               peers, Validate, volumes and claims (`Volumes`), the sizes of the MySQL configuration
--               (`Conf`), GetImage (`Image`); `Spec` has the fields of MysqlCluster that are read
--   Kube        pods, and the calls of the API client and the xenon executor. What a call returns is
--               the parameter `Env`, a function of the calls before it; an `Act` extends their trace
--   Status      mysqlcluster/syncer/status.go: the status types, updateClusterStatus and the
--               conditions (`Conditions`), the nodes (`Nodes`), reconcileXenon (`Xenon`),
--               the labels of pods (`Pods`), AutoRebuild and DoRoRebuild (`Rebuild`)
--   StatefulSet mysqlcluster/syncer/statefulset.go: the rolling update of the pods and the removal
--               of volume claims; what the polls read is the parameter `Polls`
--   Webhook     api/v1alpha1/mysqlcluster_webhook.go: the validators; what they ask of other
--               libraries is the parameter `Outside`
--   Replica     internal/sql_runner.go: CheckSlaveStatus, its retries and the checks of variables; the
--               answers of the server are the parameter `Server`
--   UserQuery   internal/query.go and the statements on users of internal/sql_runner.go
--   Backup      controllers/backup/backup_controller.go and utils.go: reconcileManualBackup
--               (`Manual`), reconcileCronBackup and Reconcile (`Cron`), the jobs (`Jobs`, `Template`);
--               what a round reads (the jobs, the cluster, a random name) is its arguments
--   Hooks       cmd/xenon/main.go: leaderStop, KillThreads, postStart. leaderStop is a relation of the
--               steps of its goroutine and of its select, `StopStep`, over the channel between them
--   MysqlUser   controllers/mysqluser_controller.go and mysqluser/status.go over UserQuery and Utils; the
--               accounts of MySQL are the interface `Accounts`, its manual the laws `Documented`
--   Conversion  api/v1beta1/mysqlcluster_conversion.go: the spec of a MysqlCluster and the status of a
--               Backup, from v1beta1 to v1alpha1 and back
--   Sidecar     sidecar/config.go: the server id (`ServerId`), the GTIDs of a backup (`Gtid`), the restores
--               (`Restore`, `Fallback`) with the choice among them of sidecar/init.go; what commands
--               and files answer is the parameter `Machine`
--   Probes      cmd/mysql/main.go: readiness; what it reads is the record `Seen`
--   Examples    the theorems at concrete inputs, and tests
--
-- Strings are lists of bytes, errors are their messages, times are seconds. A Go panic is `none`.
-- Loops are recursions on their slices, or on the rounds left. The one function on fuel,
-- `print_digits`, has as many rounds as the number that it prints and one more: a number has fewer
-- digits than that. Polls are recursions on what they read, which ends, as the
-- polls do after a time. `replicas` is a natural number: the schema admits 0, 1, 2, 3 and 5.
--
-- Not modelled: calls of Kubernetes, MySQL and xenon beyond their results; logging; waiting; the
-- generated code of api/; the wiring of controllers. PROJECT.json lists the components.
pub mod Backup
pub mod Prelude
pub mod Utils
pub mod Cluster
pub mod Kube
pub mod Status
pub mod Webhook
pub mod Conversion
pub mod Hooks
pub mod StatefulSet
pub mod Replica
pub mod Sidecar
pub mod Probes
pub mod UserQuery
pub mod MysqlUser
mod Examples
