-- ===== src/Kube.antt =====
-- What the operator sees of Kubernetes and of xenon: pods, the calls of the API client and of the
-- xenon executor, and the actions that make such calls. What a call returns is a parameter.
pub mod Runs
pub mod Makes
pub mod Batch
use radondb_mysql_kubernetes.Prelude.{
  Bool, Option, none, some, List, [], ◌∷◌, ◌++◌, Str, Labels, Error,
}
use Batch.{JobSpec}

-- corev1.ConditionStatus
pub data ConditionStatus : Type 0 where
  condition_true condition_false condition_unknown : ConditionStatus

-- corev1.PodPhase
pub data PodPhase : Type 0 where
  pod_pending pod_running pod_succeeded pod_failed pod_unknown : PodPhase

-- corev1.PodConditionType, with one constructor for the types that no code here names
pub data PodConditionType : Type 0 where
  containers_ready pod_scheduled other_type : PodConditionType

pub record PodCondition : Type 0 where
  pub kind : PodConditionType
  pub status : ConditionStatus
  pub reason : Str
  pub message : Str

pub record ContainerStatus : Type 0 where
  pub name : Str
  pub ready : Bool

pub record Pod : Type 0 where
  pub name : Str
  pub labels : Labels
  -- whether `DeletionTimestamp` is not nil
  pub deleted : Bool
  pub phase : PodPhase
  pub conditions : List PodCondition
  pub container_statuses : List ContainerStatus

-- The calls that change or ask something outside the operator, or write the status.
pub data Call : Type 0 where
  update_pod patch_pod delete_pod : Pod → Call
  get_pvc delete_pvc : Str → Call
  xenon_ping : Str → Call
  cluster_add cluster_remove : Str → Str → Call
  -- the state ClusterUpdateState, written to the status
  mark_updating : Call
  -- the labels of a backup, the patch of its status, and the owner of an object that is its own
  update_backup : Str → Labels → Call
  patch_backup_status set_backup_owner : Str → Call
  -- a job that is read, and a job or a cron job (its schedule, and whether it is suspended) that
  -- is applied
  get_job : Str → Call
  apply_job : Str → Labels → JobSpec → Call
  apply_cron_job : Str → Labels → Str → Bool → JobSpec → Call

abbrev pub Trace : Type 0
Trace = List Call

-- What a call returns, given the calls made before it.
abbrev pub Env : Type 0
Env = Trace → Call → Option Error

-- A function that returns an `error`: the calls made so far come in and go out.
abbrev pub Act : Type 0
Act = Trace → Option Error × Trace

unfoldable pub succeed : Act
succeed tr = (none, tr)

unfoldable pub fail : Error → Act
fail e tr = (some e, tr)

abbrev proceed : Option Error → Act → Act
proceed none k tr = k tr
proceed (some e) k tr = (some e, tr)

-- `if err := m; err != nil { return err }` before `k`
infixr 5 ◌>>◌
unfoldable pub ◌>>◌ : Act → Act → Act
unfolding succeed fail
◌>>◌ m k tr = let (e, tr') = m tr in proceed e k tr'

module _ (env : Env) where
  unfoldable pub perform : Call → Act
  perform c tr = (env tr c, tr ++ c ∷ [])

  -- A list of calls in order, up to the first that fails.
  unfoldable pub run_all : List Call → Act
  unfolding perform ◌>>◌
  run_all [] = succeed
  run_all (c ∷ calls) = do perform c; run_all calls
