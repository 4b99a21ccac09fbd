-- ===== src/Transport/Profiles.antt =====
-- ProfileBoundBatchTransportService: the limits of `prepare`, the cleanup of a staging table, and
-- the classification that `run` makes.
pub mod Results
use schemabridge.Base.{
  ℕ, ◌≤◌, ◌≡◌, ◌≢◌, refl, sym, ap, Bool, true, false, not, ◌&&◌, ◌||◌, Option, none, some, List, [],
  ◌∷◌, ◌==◌, leb, length, take, drop, all, min, if◌then◌else◌, ◌⊎◌, inl, inr, arith, Bool-cases,
  and_left, and_right,
}
use schemabridge.Base.Text.{Text, codes, text_eq, eq_of_text_eq}
use schemabridge.Transport.Batch.{TransportRelation, BatchTransportResult}
use schemabridge.Transport.Service.{
  Attempt, done, failed, Failure, invalid_request, progress_reporting_failed, Writer, and_then,
  check, or_fail, SourceTable, staging_relation,
}

-- A connection profile, with the fields that transport reads.
pub record Profile : Type 0 where
  pub profile_id : Text
  pub database : Text
  pub write_enabled : Bool
  pub max_rows : ℕ
  pub timeout_seconds : ℕ

-- A profile's service: whether its connector can read batches and write staging tables.
pub record ProfileService : Type 0 where
  pub profile : Profile
  pub reads_batches : Bool
  pub writes_staging : Bool

pub record PreparedBatchTransport : Type 0 where
  pub source_profile_id : Text
  pub target_profile_id : Text
  pub batch_size : ℕ
  pub timeout_seconds : ℕ
  pub source_profile : Profile
  pub target_profile : Profile

-- `value or default`
unfoldable pub or_default : Option ℕ → ℕ → ℕ
or_default none d = d
or_default (some n) d = if n == 0 then d else n

-- The checks on the two services.
unfoldable pub is_compatible : Text → Text → Text → ProfileService → ProfileService → Bool
is_compatible source_id target_id database source target =
    text_eq source.profile.profile_id source_id
    && (text_eq target.profile.profile_id target_id
        && (target.profile.write_enabled
            && (text_eq target.profile.database database
                && (source.reads_batches && target.writes_staging))))

prepare_with :
    Text
    → Text
    → Text
    → Option ℕ
    → Option ℕ
    → ProfileService
    → ProfileService
    → Option PreparedBatchTransport
unfolding or_default is_compatible
prepare_with source_id target_id database batch_size timeout source target =
    let rows = min source.profile.max_rows target.profile.max_rows in
    let seconds = min source.profile.timeout_seconds target.profile.timeout_seconds in
    let requested_batch = or_default batch_size rows in
    let requested_timeout = or_default timeout seconds in
    let prepared : PreparedBatchTransport = record {
      source_profile_id = source_id;
      target_profile_id = target_id;
      batch_size = min requested_batch rows;
      timeout_seconds = min requested_timeout seconds;
      source_profile = source.profile;
      target_profile = target.profile;
    } in
    if is_compatible source_id target_id database source target
      && (leb 1 requested_batch && leb 1 requested_timeout)
    then some prepared
    else none

prepare_both :
    Text
    → Text
    → Text
    → Option ℕ
    → Option ℕ
    → Option ProfileService
    → Option ProfileService
    → Option PreparedBatchTransport
unfolding prepare_with
prepare_both source_id target_id database batch_size timeout (some source) (some target) =
    prepare_with source_id target_id database batch_size timeout source target
prepare_both source_id target_id database batch_size timeout _ _ = none

-- `prepare`: none is BatchTransportError.
unfoldable pub prepare :
    (Text → Option ProfileService)
    → Text
    → Text
    → Text
    → Option ℕ
    → Option ℕ
    → Option PreparedBatchTransport
unfolding prepare_both
prepare factory source_id target_id database batch_size timeout =
    prepare_both source_id target_id database batch_size timeout (factory source_id)
      (factory target_id)

-- `[0-9A-F]`
is_hex : ℕ → Bool
is_hex c = (leb 48 c && leb c 57) || (leb 65 c && leb c 70)

-- `re.fullmatch(r"SB_STAGE_[0-9A-F]{32}", name)`
unfoldable pub is_managed_name : Text → Bool
unfolding is_hex
is_managed_name name =
    text_eq (take 9 name) (codes "SB_STAGE_")
    && ((length (drop 9 name) == 32) && all is_hex (drop 9 name))

names_database : Option Text → Text → Bool
names_database none database = false
names_database (some catalog) database = text_eq catalog database

-- The checks of `cleanup_staging`.
unfoldable pub may_clean : Text → Text → TransportRelation → ℕ → ProfileService → Bool
unfolding is_managed_name names_database
may_clean target_id database relation timeout target =
    names_database relation.catalog_name database
    && (is_managed_name relation.object_name
        && (text_eq target.profile.profile_id target_id
            && (text_eq target.profile.database database
                && (target.profile.write_enabled && (target.writes_staging && leb 1 timeout)))))

-- The data of BatchTransportDisposition and ProfileBoundBatchTransportResult.
pub data BatchTransportDisposition : Type 0 where
  succeeded confirmed_failed_cleaned_up outcome_uncertain : BatchTransportDisposition

pub record ProfileBoundBatchTransportResult : Type 0 where
  pub disposition : BatchTransportDisposition
  pub result : Option BatchTransportResult
  pub failure_category : Option Text

category_of : Failure → Text
category_of progress_reporting_failed = codes "PROGRESS_REPORTING_FAILED"
category_of _ = codes "STAGING_LOAD_FAILED"

-- TransportExecutionStrategy.transfer between the connectors of a prepared transport: the identifier,
-- the source table, the target's database and schema, the batch size and the timeout.
abbrev pub Strategy : Type 0 → Type 0
Strategy S = ℕ → SourceTable → Text → Text → ℕ → ℕ → S → S × Attempt BatchTransportResult

module _ {S Value : Type 0} (writer : Writer S Value) where
  clean : Bool → TransportRelation → S → S × Attempt (Unit {0})
  clean false relation s = (s, failed invalid_request)
  clean true relation s = writer.drop_staging_table relation s

  -- `cleanup_staging`; a target without a service is refused too.
  unfoldable pub cleanup_staging :
      (Text → Option ProfileService)
      → Text
      → Text
      → TransportRelation
      → ℕ
      → S
      → S × Attempt (Unit {0})
  unfolding may_clean clean or_fail
  cleanup_staging factory target_id database relation timeout s =
      and_then (or_fail (factory target_id) s)
        λ s₁ target. clean (may_clean target_id database relation timeout target) relation s₁

  after_drop : Failure → S × Attempt (Unit {0}) → S × Attempt ProfileBoundBatchTransportResult
  unfolding category_of
  after_drop f (s, done u) = (
    s,
    done (record {
      disposition = confirmed_failed_cleaned_up;
      result = none;
      failure_category = some (category_of f);
    }),
  )
  after_drop f (s, failed g) = (
    s,
    done (record {
      disposition = outcome_uncertain;
      result = none;
      failure_category = some (codes "STAGING_OUTCOME_UNCERTAIN");
    }),
  )

  after_transfer :
      TransportRelation
      → S × Attempt BatchTransportResult
      → S × Attempt ProfileBoundBatchTransportResult
  unfolding after_drop
  after_transfer relation (s, done r) =
      (s, done (record { disposition = succeeded; result = some r; failure_category = none }))
  after_transfer relation (s, failed f) = after_drop f (writer.drop_staging_table relation s)

  -- `run`: the relation is computed before the `try`, from the arguments that the strategy gets too.
  unfoldable pub run_transport :
      (ℕ → Text)
      → Strategy S
      → PreparedBatchTransport
      → ℕ
      → SourceTable
      → Text
      → Text
      → S
      → S × Attempt ProfileBoundBatchTransportResult
  unfolding after_transfer or_fail
  run_transport name_of strategy prepared transport_id source database schema s =
      and_then (or_fail (staging_relation name_of transport_id database schema) s) λ s₁ relation.
        after_transfer relation (
          strategy transport_id source database schema prepared.batch_size prepared.timeout_seconds
            s₁)
