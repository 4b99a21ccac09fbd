-- ===== src/Validation/PrimaryKey/Copies.antt =====
-- schemabridge/validation/primary_key.py: what the dictionary of the copied columns says of the plan.
use schemabridge.Base.{
  ◌≡◌, refl, sym, ◌∙◌, subst, Bool, true, ◌&&◌, Option, none, some, List, [], ◌∷◌, ◌⊎◌, inl, inr,
  Bool-cases, and_left, and_right, arith,
}
use schemabridge.Base.Text.{Text, text_eq, eq_of_text_eq}
use schemabridge.Validation.PrimaryKey.{
  MappingApprovalStatus, pending, approved, rejected, overridden, TransformationExpressionType,
  source_column_expression, literal, cast, concat, coalesce, direct_copy, TransformationExpression,
  ColumnMappingApproval, is_accepted, is_copy, columns_eq, copy_of, copied, mapping, lookup, write,
  prepend, lookup_all,
}

pub columns_eq-eq : (s t : List Text) → columns_eq s t ≡ true → s ≡ t
unfolding columns_eq
columns_eq-eq [] [] h = refl
columns_eq-eq [] (d ∷ t) h = absurd (ground arith)
columns_eq-eq (c ∷ s) [] h = absurd (ground arith)
columns_eq-eq (c ∷ s) (d ∷ t) h =
    rw (eq_of_text_eq c d (and_left (text_eq c d) (columns_eq s t) h))
      (rw (columns_eq-eq s t (and_right (text_eq c d) (columns_eq s t) h)) refl)

-- What may take a column's values over unchanged.
pub record IsPlainCopy (source : Text) (t : TransformationExpression) : Type 0 where
  pub expression :
      (t.expression_type ≡ direct_copy) ⊎ (t.expression_type ≡ source_column_expression)
  pub only_source : t.source_columns ≡ source ∷ []

-- The approval is approved or overridden and copies the source column to the target column.
pub record IsCopy (source target : Text) (a : ColumnMappingApproval) : Type 0 where
  pub from_source : a.source_column ≡ source
  pub to_target : a.target_column ≡ some target
  pub accepted : (a.status ≡ approved) ⊎ (a.status ≡ overridden)
  pub transformation : TransformationExpression
  pub transforms : a.transformation ≡ some transformation
  pub plain : IsPlainCopy source transformation

accepted_status :
    (x : MappingApprovalStatus) → is_accepted x ≡ true → (x ≡ approved) ⊎ (x ≡ overridden)
unfolding is_accepted
accepted_status pending h = absurd (ground arith)
accepted_status approved h = inl refl
accepted_status rejected h = absurd (ground arith)
accepted_status overridden h = inr refl

copy_expression :
    (x : TransformationExpressionType)
    → is_copy x ≡ true
    → (x ≡ direct_copy) ⊎ (x ≡ source_column_expression)
unfolding is_copy
copy_expression source_column_expression h = inr refl
copy_expression literal h = absurd (ground arith)
copy_expression cast h = absurd (ground arith)
copy_expression concat h = absurd (ground arith)
copy_expression coalesce h = absurd (ground arith)
copy_expression direct_copy h = inl refl

-- An approval that the loop does not pass over.
copy_of_inv :
    (status : MappingApprovalStatus) (source target : Text) (o : Option Text)
    (x : Option TransformationExpression)
    → copy_of status source o x ≡ some target
    → (o ≡ some target)
      × ((status ≡ approved) ⊎ (status ≡ overridden))
      × ((t : TransformationExpression) × (x ≡ some t) × IsPlainCopy source t)
unfolding copy_of
copy_of_inv status source target none x h = absurd (ground arith)
copy_of_inv status source target (some c) none h = absurd (ground arith)
copy_of_inv status source target (some c) (some t) h =
    let columns : Bool = columns_eq t.source_columns (source ∷ []) in
    let tests : (is_accepted status && (is_copy t.expression_type && columns)) ≡ true =
      ground arith in
    let both = and_right (is_accepted status) (is_copy t.expression_type && columns) tests in
    (
      ground arith,
      accepted_status status
          (and_left (is_accepted status) (is_copy t.expression_type && columns) tests),
      (
        t,
        refl,
        record {
          expression =
              copy_expression t.expression_type (and_left (is_copy t.expression_type) columns both);
          only_source =
              columns_eq-eq t.source_columns (source ∷ [])
                (and_right (is_copy t.expression_type) columns both);
        },
      ),
    )

copied-IsCopy :
    (a : ColumnMappingApproval) (source target : Text)
    → a.source_column ≡ source
    → copied a ≡ some target
    → IsCopy source target a
unfolding copied
copied-IsCopy a source target e h =
    let (to, ok_status, (t, x, plain)) =
      copy_of_inv a.status a.source_column target a.target_column a.transformation h in
    record {
      from_source = e;
      to_target = to;
      accepted = ok_status;
      transformation = t;
      transforms = x;
      plain = subst (λ c. IsPlainCopy c t) e plain;
    }

-- The plan has an accepted approval that copies the source column to the target column.
pub data Copied (source target : Text) : List ColumnMappingApproval → Type 0 where
  here :
      {a : ColumnMappingApproval} {plan : List ColumnMappingApproval}
      → IsCopy source target a
      → Copied source target (a ∷ plan)
  there :
      {a : ColumnMappingApproval} {plan : List ColumnMappingApproval}
      → Copied source target plan
      → Copied source target (a ∷ plan)

-- Each source column is copied to the target column at the same place.
pub data Copies (plan : List ColumnMappingApproval) : List Text → List Text → Type 0 where
  no_column : Copies plan [] []
  next_column :
      {source target : Text} {sources targets : List Text}
      → Copied source target plan
      → Copies plan sources targets
      → Copies plan (source ∷ sources) (target ∷ targets)

lookup-write :
    (a : ColumnMappingApproval) (o : Option Text) (plan : List ColumnMappingApproval)
    (mapped : List (Text × Text)) (c t : Text)
    → copied a ≡ o
    → lookup c (write a.source_column o mapped) ≡ some t
    → (lookup c mapped ≡ some t) ⊎ Copied c t (a ∷ plan)
unfolding write lookup
lookup-write a none plan mapped c t e h = inl h
lookup-write a (some u) plan mapped c t e h = elim (Bool-cases (text_eq a.source_column c)) [
  | inl s ↦
      let r : some u ≡ some t = rw s at h in
      inr (here (copied-IsCopy a c t (eq_of_text_eq a.source_column c s) (e ∙ r)))
  | inr s ↦ inl (rw s at h)
]

lookup-mapping :
    (plan : List ColumnMappingApproval) (mapped : List (Text × Text)) (c t : Text)
    → lookup c (mapping plan mapped) ≡ some t
    → (lookup c mapped ≡ some t) ⊎ Copied c t plan
unfolding mapping
lookup-mapping [] mapped c t h = inl h
lookup-mapping (a ∷ plan) mapped c t h =
    elim (lookup-mapping plan (write a.source_column (copied a) mapped) c t h) [
      | inl q ↦ lookup-write a (copied a) plan mapped c t refl q
      | inr q ↦ inr (there q)
    ]

prepend_inv :
    (o : Option Text) (os : Option (List Text)) (ts : List Text)
    → prepend o os ≡ some ts
    → (t : Text) × (us : List Text) × (o ≡ some t) × (os ≡ some us) × (ts ≡ t ∷ us)
unfolding prepend
prepend_inv none os ts h = absurd (ground arith)
prepend_inv (some t) none ts h = absurd (ground arith)
prepend_inv (some t) (some us) ts h = (t, us, refl, refl, ground arith)

pub lookup_all-Copies :
    (plan : List ColumnMappingApproval) (cs ts : List Text)
    → lookup_all cs (mapping plan []) ≡ some ts
    → Copies plan cs ts
unfolding lookup_all lookup
lookup_all-Copies plan [] ts h =
    let e : [] ≡ ts = ground arith in subst (λ l. Copies plan [] l) e no_column
lookup_all-Copies plan (c ∷ cs) ts h =
    let (t, us, p, q, e) =
      prepend_inv (lookup c (mapping plan [])) (lookup_all cs (mapping plan [])) ts h in
    let first : Copied c t plan = elim (lookup-mapping plan [] c t p) [
      | inl n ↦ absurd (ground arith)
      | inr found ↦ found
    ] in
    subst (λ l. Copies plan (c ∷ cs) l) (sym e) (next_column first (lookup_all-Copies plan cs us q))
