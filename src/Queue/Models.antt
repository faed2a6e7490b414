-- ===== src/Queue/Models.antt =====
-- apps/agy_queue/models.py: job records and policy enums. A timestamp is a number of milliseconds:
-- `utc_iso` writes all of them in one fixed-width form, whose text order is the order of time. Job
-- ids are only compared, by equality and by order, so they are numbers. JSON values are the texts
-- that `_json_dumps` makes of them.
use blessing_ai.Prelude.{
  some, none, false, str_eq, ℕ, String, Bool, true, false, Option, List, [], ◌∷◌, ◌&&◌, not, ltb,
  ◌==◌, any,
}

pub data JobStatus : Type 0 where
  pending running succeeded failed cancelled : JobStatus

pub data GateState : Type 0 where
  ready waiting_authorization waiting_verification verified blocked : GateState

pub data JobKind : Type 0 where
  read_only repo_change release_gate_evaluate mainnet_preflight verify_external : JobKind
  cloud_write trading_order emergency_kill_switch : JobKind

pub data ExternalEffectClass : Type 0 where
  no_effect repo_effect cloud_effect exchange_order emergency_control : ExternalEffectClass

-- `JOB_EFFECT_CLASS`
unfoldable pub job_effect_class : JobKind → ExternalEffectClass
job_effect_class JobKind.read_only = no_effect
job_effect_class JobKind.release_gate_evaluate = no_effect
job_effect_class JobKind.repo_change = repo_effect
job_effect_class JobKind.mainnet_preflight = no_effect
job_effect_class JobKind.verify_external = no_effect
job_effect_class JobKind.cloud_write = cloud_effect
job_effect_class JobKind.trading_order = exchange_order
job_effect_class JobKind.emergency_kill_switch = emergency_control

-- `AGY_JOB_KINDS`
abbrev pub agy_job_kinds : List JobKind
agy_job_kinds = read_only ∷ repo_change ∷ release_gate_evaluate ∷ []

-- the position of a value in its enumeration, for the tests of equality
abbrev status_index : JobStatus → ℕ
status_index pending = 0
status_index running = 1
status_index succeeded = 2
status_index failed = 3
status_index cancelled = 4

abbrev pub status_eq : JobStatus → JobStatus → Bool
status_eq a b = status_index a == status_index b

abbrev gate_index : GateState → ℕ
gate_index ready = 0
gate_index waiting_authorization = 1
gate_index waiting_verification = 2
gate_index verified = 3
gate_index blocked = 4

abbrev pub gate_eq : GateState → GateState → Bool
gate_eq a b = gate_index a == gate_index b

abbrev kind_index : JobKind → ℕ
kind_index read_only = 0
kind_index repo_change = 1
kind_index release_gate_evaluate = 2
kind_index mainnet_preflight = 3
kind_index verify_external = 4
kind_index cloud_write = 5
kind_index trading_order = 6
kind_index emergency_kill_switch = 7

abbrev pub kind_eq : JobKind → JobKind → Bool
kind_eq a b = kind_index a == kind_index b

abbrev pub kind_in : JobKind → List JobKind → Bool
kind_in k kinds = any (kind_eq k) kinds

-- The effects that are never repeated: `in {CLOUD_WRITE, EXCHANGE_ORDER, EMERGENCY_CONTROL}`.
abbrev pub is_unsafe : ExternalEffectClass → Bool
is_unsafe no_effect = false
is_unsafe repo_effect = false
is_unsafe cloud_effect = true
is_unsafe exchange_order = true
is_unsafe emergency_control = true

-- The fields of `JobRecord` that no operation writes after the job is created.
pub record JobSpec : Type 0 where
  pub job_id : ℕ
  pub created_at : ℕ
  pub prompt : String
  pub repo : String
  pub base_sha : Option String
  pub model : String
  pub effort : String
  pub timeout_sec : ℕ
  pub max_attempts : ℕ
  pub raw_events_path : Option String
  pub branch : Option String
  pub session_key : Option String
  pub scope_key : Option String
  pub job_kind : JobKind
  pub external_effect_class : ExternalEffectClass
  pub authorization_ref : Option String
  pub verification_job_id : Option String
  pub expected_output_schema : Option String

pub record JobRecord : Type 0 where
  pub spec : JobSpec
  pub open spec use *
  pub updated_at : ℕ
  pub status : JobStatus
  pub attempt : ℕ
  pub lease_until : Option ℕ
  pub worker_id : Option String
  pub conversation_id : Option String
  pub result_path : Option String
  pub result_json : Option String
  pub error_code : Option String
  pub stderr : Option String
  pub started_at : Option ℕ
  pub finished_at : Option ℕ
  pub head_sha : Option String
  pub next_attempt_at : Option ℕ
  pub gate_state : GateState

-- `JobRecord.is_terminal`
abbrev pub is_terminal : JobStatus → Bool
is_terminal pending = false
is_terminal running = false
is_terminal succeeded = true
is_terminal failed = true
is_terminal cancelled = true

-- `JobRecord.can_retry`
unfoldable pub can_retry : JobRecord → Bool
can_retry j =
    status_eq j.status failed
    && ltb j.attempt j.max_attempts
    && not (is_unsafe j.external_effect_class)

-- `scope IS NOT NULL AND scope = other` in the SQL of `claim_next`
abbrev pub same_scope : Option String → Option String → Bool
same_scope (some a) (some b) = str_eq a b
same_scope (some a) none = false
same_scope none b = false

abbrev pub has_id : ℕ → JobRecord → Bool
has_id i j = j.job_id == i
