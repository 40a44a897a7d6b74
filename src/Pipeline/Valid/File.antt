-- ===== src/Pipeline/Valid/File.antt =====
-- `validate` accepts exactly the files that keep every rule.
use flowz.Prelude.{
  Str, eqb_iff, List, Result, ok, err, ◌>>◌, ◌≡◌, ◌≢◌, ◌↔◌, inl, inr, refl, Result-cases, ap, sym,
  subst,
}
use flowz.Model.{PipelineFile}
use flowz.Pipeline.Graph.{keys, Outcome, Search, done, cycle, out_of_fuel}
use flowz.Pipeline.Graph.Correct.{Yields, detect_cycle-IsAcyclic}
use flowz.Pipeline.{Checked, is_some, graph, report, validate, parse}
use flowz.Pipeline.Valid.{ValidStep, IsValid}
use flowz.Pipeline.Valid.Rules.{seq-ok, for_each-ok, guard-ok}
use flowz.Pipeline.Valid.Steps.{check_secrets-ok, check_step-ok}
use flowz.Pipeline.Valid.Cache.{validate_cache-ok}

report-ok :
    (o : Outcome) (h : o ≢ out_of_fuel) → (report o h ≡ ok tt) ↔ ((t : Search) × (o ≡ done t))
report-ok (done t) h = (λ _. (t, refl), λ _. refl)
report-ok (cycle n) h = (λ e. absurd (cc), λ (t, e). absurd (cc))
report-ok out_of_fuel h = absurd (h refl)

-- If the hash map of the search yields each of its keys, `validate` returns `Ok` exactly for the
-- files that keep every rule: the version, the secrets section, the names and paths of the caches,
-- each step, and no cycle of needs.
pub validate-IsValid :
    (order : List Str → List Str)
    → Yields order
    → (pf : PipelineFile) → (validate order pf ≡ ok tt) ↔ IsValid pf
unfolding validate
validate-IsValid order yields pf =
    let acyclic = detect_cycle-IsAcyclic order (graph pf) yields in
    let steps =
      for_each-ok (λ e. ValidStep (keys pf.steps) (is_some pf.secrets) e.1) _
        (check_step-ok (keys pf.steps) (is_some pf.secrets)) pf.steps in
    (
      λ h.
          let (h1, r1) = (seq-ok _ _).0 h in
          let (h2, r2) = (seq-ok _ _).0 r1 in
          let (h3, r3) = (seq-ok _ _).0 r2 in
          let (h4, h5) = (seq-ok _ _).0 r3 in
          record {
            version_one = (eqb_iff pf.version 1).0 ((guard-ok _ _).0 h1);
            valid_secrets = (check_secrets-ok pf.secrets).0 h2;
            valid_cache = (validate_cache-ok pf).0 h3;
            valid_steps = steps.0 h4;
            acyclic = acyclic.0 ((report-ok _ _).0 h5);
          },
      λ v. (seq-ok _ _).1 (
        (guard-ok _ _).1 ((eqb_iff pf.version 1).1 v.version_one),
        (seq-ok _ _).1 (
          (check_secrets-ok pf.secrets).1 v.valid_secrets,
          (seq-ok _ _).1 (
            (validate_cache-ok pf).1 v.valid_cache,
            (seq-ok _ _).1 (steps.1 v.valid_steps, (report-ok _ _).1 (acyclic.1 v.acyclic)),
          ),
        ),
      ),
    )

then-ok : (c : Checked) (qf pf : PipelineFile) → ((c >> ok qf) ≡ ok pf) ↔ ((c ≡ ok tt) × (qf ≡ pf))
then-ok (ok u) qf pf = (λ h. (refl, cc h), λ h. ap ok h.1)
then-ok (err e) qf pf = (λ h. absurd (cc h), λ h. absurd (cc h.0))

-- If the hash map of the search yields each of its keys, a file parses to a pipeline exactly when
-- the YAML parser yields that pipeline and it is valid.
pub parse-IsValid :
    (from_str : Str → Result Str PipelineFile) (order : List Str → List Str)
    → Yields order
    → (yaml : Str) (pf : PipelineFile)
    → (parse from_str order yaml ≡ ok pf) ↔ ((from_str yaml ≡ ok pf) × IsValid pf)
unfolding parse
parse-IsValid from_str order yields yaml pf = elim (Result-cases (from_str yaml)) [
  | inl (qf, e) ↦
      rw (e, parse)
        (
          λ h.
              let (v, same) = (then-ok (validate order qf) qf pf).0 h in
              (ap ok same, subst IsValid same ((validate-IsValid order yields qf).0 v)),
          λ h.
              let same : qf ≡ pf = cc (h.0) in
              (then-ok (validate order qf) qf pf).1
                ((validate-IsValid order yields qf).1 (subst IsValid (sym same) h.1), same),
        )
  | inr (x, e) ↦ (λ h. absurd (cc (rw (e, parse) at h)), λ h. absurd (cc (e, h.0)))
]
