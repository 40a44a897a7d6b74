-- ===== src/Agent/Env/Priority.antt =====
-- Which value a variable of a step has.
use flowz.Prelude.{
  Str, ◌==◌, ==_iff, ==_refl, true, false, if◌then◌else◌, List, [], ◌∷◌, Option, none, some, ◌≡◌,
  refl, ap, ◌∙◌, sym, Bool-cases, inl, inr,
}
use flowz.Model.{IndexMap, PipelineFile, Step}
use flowz.Secrets.{Pairs}
use flowz.Agent.Resolver.{get}
use flowz.Agent.Env.{put, extend, merged}

abbrev pub or_else : {V : Type 0} → Option V → Option V → Option V
or_else none b = b
or_else (some v) b = some v

-- The value that a list of assignments leaves a variable with.
abbrev pub latest : {V : Type 0} → List (Str × V) → Str → Option V
latest [] key = none
latest ((k, v) ∷ entries) key = or_else (latest entries key) (if k == key then some v else none)

or_else_assoc : {V : Type 0} (a b c : Option V) → or_else (or_else a b) c ≡ or_else a (or_else b c)
or_else_assoc none b c = refl
or_else_assoc (some v) b c = refl

-- A key that is one text is not another.
apart : (j k key : Str) → (j == k) ≡ false → (j == key) ≡ true → (k == key) ≡ false
apart j k key there mine = elim (Bool-cases (k == key)) [
  | inl same ↦
      let e : j ≡ k = (==_iff j key).0 mine ∙ sym ((==_iff k key).0 same) in
      absurd (cc (there, ap (λ x. j == x) e, ==_refl j))
  | inr other ↦ other
]

pub get-put :
    {V : Type 0} (m : IndexMap V) (k : Str) (v : V) (key : Str)
    → get (put m k v) key ≡ or_else (if k == key then some v else none) (get m key)
unfolding get put
get-put [] k v key = elim (Bool-cases (k == key)) [
  | inl same ↦ rw same refl
  | inr other ↦ rw other refl
]
get-put ((j, u) ∷ m) k v key = elim (Bool-cases (j == k)) [
  | inl here ↦
      let alike = ap (λ x. x == key) ((==_iff j k).0 here) in
      elim (Bool-cases (k == key)) [
        | inl same ↦ rw (here, same, alike ∙ same) refl
        | inr other ↦ rw (here, other, alike ∙ other) refl
      ]
  | inr there ↦ elim (Bool-cases (j == key)) [
    | inl mine ↦ rw (there, mine, apart j k key there mine) refl
    | inr others ↦ rw (there, others, get-put m k v key) refl
  ]
]

get-extend :
    {V : Type 0} (m : IndexMap V) (entries : List (Str × V)) (key : Str)
    → get (extend m entries) key ≡ or_else (latest entries key) (get m key)
unfolding extend
get-extend m [] key = refl
get-extend m ((k, v) ∷ entries) key =
    get-extend (put m k v) entries key
    ∙ ap (or_else (latest entries key)) (get-put m k v key)
    ∙ sym (or_else_assoc (latest entries key) (if k == key then some v else none) (get m key))

-- A variable of a step has the value that the step gives it, else that of the secrets, else that of
-- the pipeline's variables.
pub get-merged :
    (pf : PipelineFile) (pairs : Pairs) (step : Step) (key : Str)
    → get (merged pf pairs step) key
      ≡ or_else (latest step.env key) (or_else (latest pairs key) (get pf.env key))
unfolding merged
get-merged pf pairs step key =
    get-extend (extend pf.env pairs) step.env key
    ∙ ap (or_else (latest step.env key)) (get-extend pf.env pairs key)
