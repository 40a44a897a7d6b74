-- ===== src/Pipeline/Errors/File.antt =====
-- `validate` refuses a file for a fault that it has.
use mathlib.Core.List.{Memᴰ, append_assoc}
use mathlib.Core.List.Memᴰ
use flowz.Prelude.{
  Str, lit, is_empty, ◌==◌, ==_iff, eqb, eqb_iff, Bool, true, false, not, List, [], ◌∷◌, ◌++◌,
  Option, none, some, ◌≡◌, ◌≢◌, refl, sym, ◌∙◌, subst, err, inl, inr, ⊎_elim, arith,
}
use flowz.Model.{IndexMap, PipelineFile, SecretsConfig}
use flowz.Pipeline.Graph.{keys, insert, Outcome, done, cycle, out_of_fuel, detect_cycle}
use flowz.Pipeline.Graph.Sets.{member_iff, mem-insert}
use flowz.Pipeline.Graph.Correct.{detect_cycle_sound, detect_cycle_returns}
use flowz.Pipeline.{
  PipelineError, unsupported_version, cycle_detected, unsupported_secrets_provider,
  empty_secrets_project, invalid_cache_name, invalid_cache_path, duplicate_cache_path,
  normalize_cache_path, validate_cache_from, validate_cache, check_secrets, is_some, graph, report,
  validate,
}
use flowz.Pipeline.Errors.{
  CacheFault, bad_name, bad_path, same_path, Fault, version_not_one, not_cfgy, no_project, in_cache,
  in_step, on_cycle, seq-err, guard-err, for_each-err,
}
use flowz.Pipeline.Errors.Steps.{check_step-StepFault}

-- The paths seen before an entry come from entries before it.
abbrev Seen : List Str → IndexMap Str → Type 0
Seen seen before =
    (norm : Str)
    → Memᴰ norm seen
    → (e : Str × Str) × Memᴰ e before × (normalize_cache_path e.1 ≡ norm)

Seen-insert :
    (seen : List Str) (before : IndexMap Str) (name path : Str)
    → Seen seen before
    → Seen (insert (normalize_cache_path path) seen) (before ++ (name, path) ∷ [])
Seen-insert seen before name path h norm m =
    ⊎_elim (λ same. ((name, path), Memᴰ.append_right before (Memᴰ.head refl), sym same))
      (λ old. let (e, q, same) = h norm old in (e, Memᴰ.append_left _ q, same))
      ((mem-insert (normalize_cache_path path) norm seen).0 m)

not-false : (b : Bool) → not b ≡ false → b ≡ true
not-false b h = ground arith

module _ (whole : IndexMap Str) where
  cache_fault :
      (seen : List Str) (before cache : IndexMap Str) (e : PipelineError)
      → whole ≡ before ++ cache
      → Seen seen before
      → validate_cache_from seen cache ≡ err e
      → CacheFault whole e
  unfolding validate_cache_from
  cache_fault seen before [] e w s h = absurd (cc)
  cache_fault seen before ((name, path) ∷ cache) e w s h =
      let here : Memᴰ (name, path) whole = rw w (Memᴰ.append_right before (Memᴰ.head refl)) in
      elim (seq-err _ _ e h) [
        | inl h1 ↦
            let (out, same) = guard-err _ (invalid_cache_name name) e h1 in
            subst (CacheFault whole) same (bad_name name path here out)
        | inr (_, r1) ↦ elim (seq-err _ _ e r1) [
          | inl h2 ↦
              let (out, same) = guard-err _ (invalid_cache_path name path) e h2 in
              subst (CacheFault whole) same (bad_path name path here (not-false _ out))
          | inr (_, r2) ↦ elim (seq-err _ _ e r2) [
            | inl h3 ↦
                let (out, same) = guard-err _ (duplicate_cache_path name) e h3 in
                let (first, m, norm) =
                  s (normalize_cache_path path) ((member_iff _ seen).0 (not-false _ out)) in
                subst (CacheFault whole) same (same_path name path before cache first w m norm)
            | inr (_, r3) ↦
                cache_fault (insert (normalize_cache_path path) seen) (before ++ (name, path) ∷ [])
                  cache e (w ∙ sym (append_assoc before ((name, path) ∷ []) cache))
                  (Seen-insert seen before name path s) r3
          ]
        ]
      ]

secrets-Fault :
    (pf : PipelineFile) (secrets : Option SecretsConfig) (e : PipelineError)
    → pf.secrets ≡ secrets
    → check_secrets secrets ≡ err e
    → Fault pf e
unfolding check_secrets
secrets-Fault pf none e p h = absurd (cc)
secrets-Fault pf (some s) e p h = elim (seq-err _ _ e h) [
  | inl h1 ↦
      let (out, same) =
        guard-err (s.provider == lit "cfgy") (unsupported_secrets_provider s.provider) e h1 in
      subst (Fault pf) same (not_cfgy s p (λ q. cc ((==_iff s.provider (lit "cfgy")).1 q, out)))
  | inr (_, h2) ↦
      let (out, same) = guard-err _ empty_secrets_project e h2 in
      subst (Fault pf) same (no_project s p (empty_text _ (not-false _ out)))
]
  where
    empty_text : (t : Str) → is_empty t ≡ true → t ≡ []
    empty_text [] q = refl
    empty_text (c ∷ t) q = absurd (cc)

report-Fault :
    (pf : PipelineFile) (order : List Str → List Str) (o : Outcome) (h : o ≢ out_of_fuel)
    (e : PipelineError)
    → detect_cycle order (graph pf) ≡ o
    → report o h ≡ err e
    → Fault pf e
report-Fault pf order (done t) h e p q = absurd (cc)
report-Fault pf order (cycle n) h e p q =
    subst (Fault pf) (guard-err false (cycle_detected n) e q).1
      (on_cycle n (detect_cycle_sound order (graph pf) n p))
report-Fault pf order out_of_fuel h e p q = absurd (h refl)

-- An error of `validate` names a fault that the file has: of its version, its secrets section, one of
-- its caches or steps, or a step that lies on a cycle of needs.
pub validate-Fault :
    (order : List Str → List Str) (pf : PipelineFile) (e : PipelineError)
    → validate order pf ≡ err e
    → Fault pf e
unfolding validate validate_cache
validate-Fault order pf e h = elim (seq-err _ _ e h) [
  | inl h1 ↦
      let (out, same) = guard-err (eqb pf.version 1) (unsupported_version pf.version) e h1 in
      subst (Fault pf) same (version_not_one (λ q. cc ((eqb_iff pf.version 1).1 q, out)))
  | inr (_, r1) ↦ elim (seq-err _ _ e r1) [
    | inl h2 ↦ secrets-Fault pf pf.secrets e refl h2
    | inr (_, r2) ↦ elim (seq-err _ _ e r2) [
      | inl h3 ↦ in_cache (cache_fault pf.cache [] [] pf.cache e refl (λ n m. elim m [ ]) h3)
      | inr (_, r3) ↦
          elim (seq-err _
            (report (detect_cycle order (graph pf)) (detect_cycle_returns order (graph pf))) e r3) [
              | inl h4 ↦
                  let ((name, step), m, found) = for_each-err _ pf.steps e h4 in
                  in_step name step m
                    (check_step-StepFault (keys pf.steps) (is_some pf.secrets) name step e found)
              | inr (_, h5) ↦
                  report-Fault pf order (detect_cycle order (graph pf))
                    (detect_cycle_returns order (graph pf)) e refl h5
            ]
    ]
  ]
]
