-- ===== src/Model/Progress.antt =====
-- schemabridge/models/transport.py: the cumulative progress of a staging load.
use schemabridge.Base.{
  ℕ, ◌*◌, ◌/◌, Bool, true, false, ◌&&◌, Option, none, some, ◌==◌, if◌then◌else◌, min,
}

pub record BatchTransportProgress : Type 0 where
  pub batches_completed : ℕ
  pub rows_read : ℕ
  pub rows_written : ℕ
  pub total_rows_estimate : Option ℕ

-- `a == b` on two Booleans.
abbrev pub same_bool : Bool → Bool → Bool
same_bool true b = b
same_bool false true = false
same_bool false false = true

-- BatchTransportProgress.__post_init__
unfoldable pub valid_progress : BatchTransportProgress → Bool
valid_progress p =
    (p.rows_read == p.rows_written) && same_bool (p.batches_completed == 0) (p.rows_read == 0)

percent_of : ℕ → Option ℕ → Option ℕ
percent_of rows none = none
percent_of rows (some total) =
    if total == 0 then some 100 else some (min 100 ((rows * 100) / total))

-- BatchTransportProgress.estimated_percent_complete
unfoldable pub estimated_percent_complete : BatchTransportProgress → Option ℕ
unfolding percent_of
estimated_percent_complete p = percent_of p.rows_read p.total_rows_estimate
