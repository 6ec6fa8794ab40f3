-- ===== src/Capacity/Model.antt =====
-- capacity/model.go and the state of capacity/controller.go: the plain data of the admission
-- controller. Counters and normalised limits are `int` values that are never negative, so they are
-- numbers; limits as configured are integers. The floats of the two ratios are a parameter.
use domainry_foundation.Prelude.{ℕ, ℤ, Bool, Map, Time, String}

pub data State : Type 0 where
  normal degraded overloaded : State

-- `unset` is the empty text that an allowed decision carries.
pub data Dimension : Type 0 where
  process workspace use_case retry unset : Dimension

-- What the controller uses of `float64`.
pub record Float : Type 1 where
  pub Number : Type 0
  pub of_int : ℕ → Number
  pub div : Number → Number → Number
  pub le : Number → Number → Bool
  pub lt : Number → Number → Bool
  pub default_degraded : Number
  pub default_recovery : Number

-- `Limits` as a caller gives it.
pub record Config (f : Float) : Type 0 where
  pub global_in_flight : ℤ
  pub workspace_in_flight : ℤ
  pub use_case_in_flight : ℤ
  pub retry_in_flight : ℤ
  pub global_rate : ℤ
  pub workspace_rate : ℤ
  pub use_case_rate : ℤ
  pub rate_window : ℤ
  pub max_workspace_states : ℤ
  pub max_use_case_states : ℤ
  pub workspace_state_ttl : ℤ
  pub degraded_ratio : f.Number
  pub recovery_ratio : f.Number
  pub retry_after : ℤ

-- `Limits` after `normalizeLimits`.
pub record Limits (f : Float) : Type 0 where
  pub global_in_flight : ℕ
  pub workspace_in_flight : ℕ
  pub use_case_in_flight : ℕ
  pub retry_in_flight : ℕ
  pub global_rate : ℕ
  pub workspace_rate : ℕ
  pub use_case_rate : ℕ
  pub rate_window : ℕ
  pub max_workspace_states : ℕ
  pub max_use_case_states : ℕ
  pub workspace_state_ttl : ℕ
  pub degraded_ratio : f.Number
  pub recovery_ratio : f.Number
  pub retry_after : ℕ

pub record Request : Type 0 where
  pub workspace_id : String
  pub use_case : String
  pub retry : Bool
  pub essential : Bool

pub record Decision : Type 0 where
  pub allowed : Bool
  pub state : State
  pub dimension : Dimension
  pub current : ℕ
  pub limit : ℕ
  pub retry_after : ℕ
  pub code : String

pub record Event : Type 0 where
  pub state : State
  pub dimension : Dimension
  pub workspace_id : String
  pub use_case : String
  pub current : ℕ
  pub limit : ℕ
  pub code : String
  pub at : Time

pub record Snapshot : Type 0 where
  pub state : State
  pub global_in_flight : ℕ
  pub global_limit : ℕ
  pub global_rate : ℕ
  pub global_rate_limit : ℕ
  pub workspace_states : ℕ
  pub use_case_states : ℕ
  pub rejected_total : ℕ
  pub recovered_total : ℕ

pub record Counter : Type 0 where
  pub in_flight : ℕ
  pub rate : ℕ
  pub window_from : Time
  pub last_seen : Time

-- The zero value that a read of an absent key returns.
abbrev pub zero_counter : Counter
zero_counter = record { in_flight = 0; rate = 0; window_from = 0; last_seen = 0 }

-- `has_sink` tells whether `events` is not nil. The lock is not modelled: each method runs as one
-- step. The clock is an argument of the methods that read it.
pub record Controller (f : Float) : Type 0 where
  pub limits : Limits f
  pub global : ℕ
  pub global_rate : Counter
  pub workspaces : Map Counter
  pub use_cases : Map Counter
  pub retries : ℕ
  pub state : State
  pub rejected : ℕ
  pub recovered : ℕ
  pub has_sink : Bool
