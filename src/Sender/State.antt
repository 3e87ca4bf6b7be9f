-- ===== src/Sender/State.antt =====
-- The state of the benchmark sender, benchmarks/clients/src/sender.c.
use dispatch_tester.Common.{ℕ, String, Bool, List, ◌∷◌}
use dispatch_tester.Proton.Clock.{Timespec}
use dispatch_tester.Proton

-- The globals. `calls` are the calls into the library so far, newest first.
pub record Sender : Type 0 where
  pub stop : Bool
  pub limit : ℕ
  pub count : ℕ
  pub acked : ℕ
  pub accepted : ℕ
  pub not_accepted : ℕ
  pub use_anonymous : Bool
  pub presettle : Bool
  pub add_timestamp : Bool
  pub add_annotations : Bool
  pub body_size : ℕ
  pub encode_buffer : Bool  -- whether the buffer is allocated
  pub encode_buffer_size : ℕ
  pub encoded_data_size : ℕ
  pub target_address : String
  pub host_address : String
  pub container_name : String
  pub pn_ssn : Bool  -- whether the global is set
  pub pn_link : Bool
  pub tag : ℕ
  pub start_ts : ℕ
  pub stop_ts : ℕ
  pub ack_start_ts : ℕ
  pub ack_stop_ts : ℕ
  pub start_stall : Timespec
  pub stalled : Bool
  pub worse_stall : ℕ
  pub total_stall : ℕ
  pub stall_count : ℕ
  pub sum_of_squares : ℕ
  pub credit_grants : ℕ
  pub grant_count : ℕ
  pub calls : List Proton.Call

abbrev pub emit : Proton.Call → Sender → Sender
emit c s = record s { calls = c ∷ s.calls }
