-- ===== src/Pipeline/Valid/Rules.antt =====
-- When a chain of checks passes.
use flowz.Prelude.{
  Bool, true, false, not, List, [], ◌∷◌, All, ok, err, ◌>>◌, guard, for_each, ◌≡◌, ◌↔◌, refl, arith,
}
use flowz.Pipeline.{PipelineError, Checked}

pub seq-ok : (m k : Checked) → ((m >> k) ≡ ok tt) ↔ ((m ≡ ok tt) × (k ≡ ok tt))
seq-ok (ok tt) k = (λ h. (refl, h), λ h. h.1)
seq-ok (err e) k = (λ h. absurd (cc), λ h. absurd (cc (h.0)))

pub for_each-ok {κ} :
    {A : Type 0} (P : A → Type κ) (check : A → Checked)
    → ((a : A) → (check a ≡ ok tt) ↔ P a)
    → (xs : List A) → (for_each check xs ≡ ok tt) ↔ All P xs
for_each-ok P check f [] = (λ _. tt, λ _. refl)
for_each-ok P check f (x ∷ xs) = (
  λ h.
      let (a, b) = (seq-ok (check x) (for_each check xs)).0 h in
      ((f x).0 a, (for_each-ok P check f xs).0 b),
  λ h. (seq-ok (check x) (for_each check xs)).1 ((f x).1 h.0, (for_each-ok P check f xs).1 h.1),
)

pub guard-ok : (b : Bool) (e : PipelineError) → (guard b e ≡ ok tt) ↔ (b ≡ true)
guard-ok true e = (λ _. refl, λ _. refl)
guard-ok false e = (λ h. absurd (cc), λ h. absurd (cc))

pub not-true : (b : Bool) → (not b ≡ true) ↔ (b ≡ false)
not-true b = ground arith
