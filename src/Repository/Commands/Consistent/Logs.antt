-- ===== src/Repository/Commands/Consistent/Logs.antt =====
-- The numbers that the audit log and the artifacts of one workflow carry, newest first.
use schemabridge.Base.{
  ℕ, suc, zero, max, ◌≡◌, ap, inl, inr, Bool-cases, List, [], ◌∷◌, ◌==◌, if◌then◌else◌, arith,
}
use schemabridge.Model.Workflow.{WorkflowArtifact}
use schemabridge.Model.Event.{MigrationAuditEvent}
use schemabridge.Repository.Store.{last_sequence, numbered}
use schemabridge.Repository.Workflows.Write.{Logged, first, another}

-- n, n - 1, ..., 1
abbrev pub countdown : ℕ → List ℕ
countdown zero = []
countdown (suc n) = suc n ∷ countdown n

unfoldable pub versions_of : ℕ → List WorkflowArtifact → List ℕ
versions_of w [] = []
versions_of w (a ∷ l) =
    if a.workflow_id == w then a.artifact_version ∷ versions_of w l else versions_of w l

unfoldable pub sequences_of : ℕ → List MigrationAuditEvent → List ℕ
sequences_of w [] = []
sequences_of w (e ∷ es) =
    if e.workflow_id == w then e.sequence_number ∷ sequences_of w es else sequences_of w es

-- The version that the newest event of the workflow carries.
unfoldable pub newest_version : ℕ → List MigrationAuditEvent → ℕ
newest_version w [] = 0
newest_version w (e ∷ es) = if e.workflow_id == w then e.workflow_version else newest_version w es

one_more :
    (w v u : ℕ) (e : MigrationAuditEvent) (es : List MigrationAuditEvent)
    → e.workflow_id ≡ w
    → sequences_of u es ≡ countdown (last_sequence u es)
    → sequences_of u (numbered e v es ∷ es) ≡ countdown (last_sequence u (numbered e v es ∷ es))
unfolding sequences_of last_sequence
one_more w v u e es own h = elim (Bool-cases (e.workflow_id == u)) [
  | inl q ↦
      let m : e.workflow_id ≡ u = ground arith in
      let top : max (suc (last_sequence u es)) (last_sequence u es) ≡ suc (last_sequence u es) =
        omega arith in
      rw (q, m, top) (ap (◌∷◌ (suc (last_sequence u es))) h)
  | inr q ↦ rw q h
]

pub Logged-sequences :
    (w v u : ℕ) (es fs : List MigrationAuditEvent)
    → Logged w v es fs
    → sequences_of u es ≡ countdown (last_sequence u es)
    → sequences_of u fs ≡ countdown (last_sequence u fs)
Logged-sequences w v u es fs (first e own q) h = rw q (one_more w v u e es own h)
Logged-sequences w v u es fs (another e {gs = gs} l own q) h =
    rw q (one_more w v u e gs own (Logged-sequences w v u es gs l h))

pub Logged-newest :
    (w v u : ℕ) (es fs : List MigrationAuditEvent)
    → Logged w v es fs
    → newest_version u fs ≡ (if w == u then v else newest_version u es)
unfolding newest_version
Logged-newest w v u es fs (first e own q) = rw (q, own)
Logged-newest w v u es fs (another e {gs = gs} l own q) =
    rw (q, own) (ground (arith, Logged-newest w v u es gs l))
