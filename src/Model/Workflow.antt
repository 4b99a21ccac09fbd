-- ===== src/Model/Workflow.antt =====
-- schemabridge/models/workflow.py: relations, workflows and artifacts. Identifiers are numbers,
-- instants are microseconds since the epoch, and the checks of `isinstance` hold by typing.
use schemabridge.Base.{
  ℕ, Bool, true, ◌&&◌, Option, none, some, List, [], ◌∷◌, leb, ◌==◌, all, ◌≡◌, if◌then◌else◌, refl,
  sym, ap, ◌∙◌,
}
use schemabridge.Base.Text.{Text, valid_text, valid_code, text_lt}
use schemabridge.Model.Status.{WorkflowStatus}

pub data ArtifactType : Type 0 where
  source_discovery target_discovery mapping_plan approved_mapping_plan : ArtifactType
  staging_load_evidence staging_cleanup_evidence transformation_preview : ArtifactType
  execution_evidence validation_preview validation_execution_report : ArtifactType

abbrev pub artifact_type_index : ArtifactType → ℕ
artifact_type_index source_discovery = 0
artifact_type_index target_discovery = 1
artifact_type_index mapping_plan = 2
artifact_type_index approved_mapping_plan = 3
artifact_type_index staging_load_evidence = 4
artifact_type_index staging_cleanup_evidence = 5
artifact_type_index transformation_preview = 6
artifact_type_index execution_evidence = 7
artifact_type_index validation_preview = 8
artifact_type_index validation_execution_report = 9

unfoldable pub same_artifact_type : ArtifactType → ArtifactType → Bool
same_artifact_type a b = artifact_type_index a == artifact_type_index b

pub data ActorType : Type 0 where
  system user service : ActorType

abbrev pub valid_optional {ℓ} : {A : Type ℓ} → (A → Bool) → Option A → Bool
valid_optional p none = true
valid_optional p (some a) = p a

pub record WorkflowRelation : Type 0 where
  pub catalog_name : Option Text
  pub schema_name : Text
  pub object_name : Text
  pub system : Text

unfoldable pub valid_relation : WorkflowRelation → Bool
valid_relation r =
    valid_optional (valid_text 512) r.catalog_name
    && (valid_text 512 r.schema_name && (valid_text 512 r.object_name && valid_text 64 r.system))

-- `values == tuple(sorted(set(values)))`: each text is before the next one.
unfoldable pub is_strictly_sorted : List Text → Bool
is_strictly_sorted [] = true
is_strictly_sorted (x ∷ []) = true
is_strictly_sorted (x ∷ y ∷ r) = text_lt x y && is_strictly_sorted (y ∷ r)

unfoldable pub valid_codes : List Text → Bool
valid_codes l = is_strictly_sorted l && all valid_code l

pub record MigrationWorkflow : Type 0 where
  pub workflow_id : ℕ
  pub display_name : Text
  pub source_profile_id : Text
  pub target_profile_id : Text
  pub source_relation : WorkflowRelation
  pub target_relation : WorkflowRelation
  pub status : WorkflowStatus
  pub version : ℕ
  pub created_at : ℕ
  pub updated_at : ℕ
  pub latest_artifact_version : ℕ
  pub last_error_code : Option Text
  pub warnings : List Text

-- The checks on the texts that no operation changes.
unfoldable pub valid_identity : MigrationWorkflow → Bool
valid_identity w =
    valid_text 200 w.display_name
    && (valid_text 256 w.source_profile_id
        && (valid_text 256 w.target_profile_id
            && (valid_relation w.source_relation
                && (valid_relation w.target_relation && valid_codes w.warnings))))

-- MigrationWorkflow.__post_init__
unfoldable pub valid_workflow : MigrationWorkflow → Bool
valid_workflow w =
    valid_identity w
    && (leb 1 w.version
        && (leb w.created_at w.updated_at && valid_optional valid_code w.last_error_code))

pub record WorkflowArtifact : Type 0 where
  pub artifact_id : ℕ
  pub workflow_id : ℕ
  pub artifact_type : ArtifactType
  pub artifact_version : ℕ
  pub schema_version : ℕ
  pub payload : List ℕ
  pub payload_sha256 : Text
  pub created_at : ℕ

type_at : ℕ → ArtifactType
type_at n =
    if n == 0
    then source_discovery
    else if n == 1
    then target_discovery
    else if n == 2
    then mapping_plan
    else if n == 3
    then approved_mapping_plan
    else if n == 4
    then staging_load_evidence
    else if n == 5
    then staging_cleanup_evidence
    else if n == 6
    then transformation_preview
    else if n == 7
    then execution_evidence
    else if n == 8
    then validation_preview
    else validation_execution_report

type_at-artifact_type_index : (k : ArtifactType) → type_at (artifact_type_index k) ≡ k
unfolding type_at
type_at-artifact_type_index source_discovery = refl
type_at-artifact_type_index _ = refl

pub artifact_type_index-injective :
    (k l : ArtifactType) → artifact_type_index k ≡ artifact_type_index l → k ≡ l
artifact_type_index-injective k l h =
    sym (type_at-artifact_type_index k) ∙ ap type_at h ∙ type_at-artifact_type_index l
