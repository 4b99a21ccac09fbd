-- ===== src/Transport/Profiles/Results.antt =====
-- What the results of `prepare`, `cleanup_staging` and `run` prove.
use schemabridge.Base.{ℕ, ◌≤◌, ◌≡◌, refl, true, Option, none, some, ◌⊎◌, inl, inr, arith, ◌≢◌, List}
use schemabridge.Base.Text.{Text, codes}
use schemabridge.Transport.Batch.{TransportRelation, DataBatch, BatchTransportResult}
use schemabridge.Transport.Service.{
  Attempt, done, failed, Failure, Writer, Reporter, SourceTable, transfer, staging_relation,
  or_fail, and_then, invalid_request, progress_reporting_failed, reader_failed, writer_failed,
  invariant_violated,
}
use schemabridge.Transport.Transfer.{Transferred, transfer-done}
use schemabridge.Transport.Profiles.{
  ProfileService, PreparedBatchTransport, or_default, is_compatible, prepare, prepare_both,
  prepare_with, ProfileBoundBatchTransportResult, succeeded, confirmed_failed_cleaned_up,
  outcome_uncertain, run_transport, after_transfer, after_drop, category_of,
}

-- The limits of a transport stay within those of its profiles.
pub record IsLimited (p : PreparedBatchTransport) (batch_size timeout : Option ℕ) : Type 0 where
  pub source_rows : p.batch_size ≤ p.source_profile.max_rows
  pub target_rows : p.batch_size ≤ p.target_profile.max_rows
  pub source_seconds : p.timeout_seconds ≤ p.source_profile.timeout_seconds
  pub target_seconds : p.timeout_seconds ≤ p.target_profile.timeout_seconds
  pub requested_rows : (n : ℕ) → batch_size ≡ some n → 1 ≤ n → p.batch_size ≤ n
  pub requested_seconds : (n : ℕ) → timeout ≡ some n → 1 ≤ n → p.timeout_seconds ≤ n
  pub positive_rows :
      1 ≤ p.source_profile.max_rows → 1 ≤ p.target_profile.max_rows → 1 ≤ p.batch_size
  pub positive_seconds :
      1 ≤ p.source_profile.timeout_seconds
      → 1 ≤ p.target_profile.timeout_seconds
      → 1 ≤ p.timeout_seconds
  pub writable : p.target_profile.write_enabled ≡ true

or_default-le : (o : Option ℕ) (d n : ℕ) → o ≡ some n → 1 ≤ n → or_default o d ≤ n
unfolding or_default
or_default-le o d n e h = ground arith

prepare_with-some :
    (source_id target_id database : Text) (batch_size timeout : Option ℕ)
    (source target : ProfileService) (p : PreparedBatchTransport)
    → prepare_with source_id target_id database batch_size timeout source target ≡ some p
    → IsLimited p batch_size timeout
unfolding prepare_with is_compatible or_default
prepare_with-some source_id target_id database batch_size timeout source target p h = record {
  source_rows = ground arith;
  target_rows = ground arith;
  source_seconds = ground arith;
  target_seconds = ground arith;
  requested_rows = λ n e k. ground arith;
  requested_seconds = λ n e k. ground arith;
  positive_rows = λ a b. ground arith;
  positive_seconds = λ a b. ground arith;
  writable = ground arith;
}

prepare_both-some :
    (source_id target_id database : Text) (batch_size timeout : Option ℕ)
    (source target : Option ProfileService) (p : PreparedBatchTransport)
    → prepare_both source_id target_id database batch_size timeout source target ≡ some p
    → IsLimited p batch_size timeout
unfolding prepare_both
prepare_both-some source_id target_id database batch_size timeout (some source) (some target) p h =
    prepare_with-some source_id target_id database batch_size timeout source target p h
prepare_both-some source_id target_id database batch_size timeout _ _ p h = absurd cc

-- A prepared transport never exceeds the row limit or the timeout of either profile, nor a positive
-- limit that the caller asked for; its limits are positive when those of the profiles are; and its
-- target profile allows writes.
pub prepare-some :
    (factory : Text → Option ProfileService) (source_id target_id database : Text)
    (batch_size timeout : Option ℕ) (p : PreparedBatchTransport)
    → prepare factory source_id target_id database batch_size timeout ≡ some p
    → IsLimited p batch_size timeout
unfolding prepare
prepare-some factory source_id target_id database batch_size timeout p h =
    prepare_both-some source_id target_id database batch_size timeout (factory source_id)
      (factory target_id) p h

module _ {S Value : Type 0} (writer : Writer S Value) (reporter : Option (Reporter S))
    (read : TransportRelation → List Text → ℕ → List (Attempt (DataBatch Value)))
    (name_of : ℕ → Text) (prepared : PreparedBatchTransport) (id : ℕ) (source : SourceTable)
    (database schema : Text) where
  abbrev load : S → S × Attempt BatchTransportResult
  load =
      transfer writer reporter name_of read id source database schema prepared.batch_size
        prepared.timeout_seconds

  -- The category names a progress that could not be reported, or a load that failed.
  abbrev pub IsCategory : Failure → Text → Type 0
  IsCategory f c =
      ((f ≡ progress_reporting_failed) × (c ≡ codes "PROGRESS_REPORTING_FAILED"))
      ⊎ ((f ≢ progress_reporting_failed) × (c ≡ codes "STAGING_LOAD_FAILED"))

  -- How a run from `s` may end.
  pub data Ran (s : S) : S × Attempt ProfileBoundBatchTransportResult → Type 0 where
    refused : staging_relation name_of id database schema ≡ none → Ran s (s, failed invalid_request)
    loaded :
        {t : S} (relation : TransportRelation) (r : BatchTransportResult)
        → staging_relation name_of id database schema ≡ some relation
        → Transferred writer reporter read source relation prepared.batch_size r t
        → Ran s
            (t, done (record { disposition = succeeded; result = some r; failure_category = none }))
    cleaned_up :
        {u t : S} (relation : TransportRelation) (f : Failure) (category : Text)
        → staging_relation name_of id database schema ≡ some relation
        → load s ≡ (u, failed f)
        → writer.drop_staging_table relation u ≡ (t, done tt)
        → IsCategory f category
        → Ran s (
          t,
          done (record {
            disposition = confirmed_failed_cleaned_up;
            result = none;
            failure_category = some category;
          }),
        )
    uncertain :
        {u t : S} (relation : TransportRelation) (f g : Failure)
        → staging_relation name_of id database schema ≡ some relation
        → load s ≡ (u, failed f)
        → writer.drop_staging_table relation u ≡ (t, failed g)
        → Ran s (
          t,
          done (record {
            disposition = outcome_uncertain;
            result = none;
            failure_category = some (codes "STAGING_OUTCOME_UNCERTAIN");
          }),
        )

  category_of-IsCategory : (f : Failure) → IsCategory f (category_of f)
  unfolding category_of
  category_of-IsCategory invalid_request = inr (λ e. absurd cc, refl)
  category_of-IsCategory reader_failed = inr (λ e. absurd cc, refl)
  category_of-IsCategory writer_failed = inr (λ e. absurd cc, refl)
  category_of-IsCategory invariant_violated = inr (λ e. absurd cc, refl)
  category_of-IsCategory progress_reporting_failed = inl (refl, refl)

  after_drop-Ran :
      (relation : TransportRelation) (f : Failure) (s u : S) (m : S × Attempt (Unit {0}))
      → staging_relation name_of id database schema ≡ some relation
      → load s ≡ (u, failed f)
      → writer.drop_staging_table relation u ≡ m
      → Ran s (after_drop writer f m)
  unfolding after_drop
  after_drop-Ran relation f s u (t, done tt) e h q =
      cleaned_up relation f (category_of f) e h q (category_of-IsCategory f)
  after_drop-Ran relation f s u (t, failed g) e h q = uncertain relation f g e h q

  after_transfer-Ran :
      (relation : TransportRelation) (s : S) (m : S × Attempt BatchTransportResult)
      → staging_relation name_of id database schema ≡ some relation
      → load s ≡ m
      → Ran s (after_transfer writer relation m)
  unfolding after_transfer
  after_transfer-Ran relation s (t, done r) e h =
      let (other, q, x) =
        transfer-done writer reporter read name_of id source database schema prepared.batch_size
          prepared.timeout_seconds s t r h in
      loaded other r q x
  after_transfer-Ran relation s (u, failed f) e h =
      after_drop-Ran relation f s u (writer.drop_staging_table relation u) e h refl

  after_relation-Ran :
      (s : S) (o : Option TransportRelation)
      → staging_relation name_of id database schema ≡ o
      → Ran s (and_then (or_fail o s) λ s₁ relation. after_transfer writer relation (load s₁))
  unfolding or_fail
  after_relation-Ran s none e = refused e
  after_relation-Ran s (some relation) e = after_transfer-Ran relation s (load s) e refl

  -- A run with the sequential transfer ends in one of four ways. Without a valid staging relation it
  -- raises before the first effect. It reports success, with the result of a transfer that has copied
  -- the whole source into the staging table of this transport. Or the transfer has failed, and right
  -- afterwards the same table was dropped: a drop that returns makes the failure a confirmed one,
  -- with a category of its own for a progress that could not be reported, and a drop that raises
  -- makes the outcome uncertain. A failure carries no result.
  pub run_transport-Ran :
      (s : S)
      → Ran s (
          run_transport writer name_of
            (transfer writer reporter name_of read)
            prepared
            id
            source
            database
            schema
            s)
  unfolding run_transport
  run_transport-Ran s = after_relation-Ran s (staging_relation name_of id database schema) refl
