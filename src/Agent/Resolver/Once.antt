-- ===== src/Agent/Resolver/Once.antt =====
-- Each configuration is fetched once, before the first step.
use flowz.Prelude.{
  Str, ◌==◌, ==_refl, List, [], ◌∷◌, All, Option, none, some, Result, ok, err, ◌≡◌, ◌≢◌, refl, ap,
  sym, subst, inl, inr, Bool-cases, Option-cases, Result-cases,
}
use flowz.Model.{IndexMap, Step, PipelineFile}
use flowz.Secrets.{Pairs}
use flowz.Agent.Events.{Event, fetch}
use flowz.Agent.Resolver.{
  SecretsResolver, Loaded, load, wanted, Preflight, next_step, preflight, get,
}

-- The configurations that were fetched, in order.
abbrev pub fetches : List Event → List Str
fetches [] = []
fetches (fetch c ∷ es) = c ∷ fetches es
fetches (_ ∷ es) = fetches es

abbrev pub Distinct : List Str → Type 0
Distinct [] = Unit
Distinct (c ∷ cs) = All (λ d. c ≢ d) cs × Distinct cs

-- The resolver knows what a step wants.
abbrev pub Has : IndexMap Pairs → Option Str → Type 0
Has cache none = Unit
Has cache (some c) = (pairs : Pairs) × (get cache c ≡ some pairs)

-- What a load does: it finds the values, fetches them, or fails.
data Loads (r : SecretsResolver) (c : Str) : Loaded → Type 0 where
  hit : {pairs : Pairs} → get r.cache c ≡ some pairs → Loads r c ([], r, ok pairs)
  fetched :
      {pairs : Pairs} {r' : SecretsResolver}
      → get r.cache c ≡ none
      → r'.cache ≡ (c, pairs) ∷ r.cache
      → Loads r c (fetch c ∷ [], r', ok pairs)
  failed : {e : Str} → get r.cache c ≡ none → Loads r c (fetch c ∷ [], r, err e)

load-Loads :
    (provider : Str → Str → Result Str Pairs) (r : SecretsResolver) (c : Str)
    → Loads r c (load provider r c)
unfolding load
load-Loads provider r c = elim (Option-cases (get r.cache c)) [
  | inl absent ↦ elim (Result-cases (provider r.project c)) [
    | inl (pairs, e) ↦ rw (absent, e) (fetched absent refl)
    | inr (x, e) ↦ rw (absent, e) (failed absent)
  ]
  | inr (pairs, found) ↦ rw found (hit found)
]

-- Two caches, the second with a new entry.
module _ (cache : IndexMap Pairs) (c : Str) (pairs : Pairs) where
  get-here : get ((c, pairs) ∷ cache) c ≡ some pairs
  unfolding get
  get-here = rw (==_refl c)

  Has-later : (o : Option Str) → Has cache o → Has ((c, pairs) ∷ cache) o
  unfolding get
  Has-later none h = tt
  Has-later (some d) (ps, h) = elim (Bool-cases (c == d)) [
    | inl same ↦ (pairs, rw same refl)
    | inr other ↦ (ps, rw other h)
  ]

  get-none : (d : Str) → get ((c, pairs) ∷ cache) d ≡ none → (get cache d ≡ none) × (c ≢ d)
  unfolding get
  get-none d h = elim (Bool-cases (c == d)) [
    | inl same ↦ absurd (cc (rw same at h))
    | inr other ↦ (rw other at h, λ e. absurd (cc (==_refl c, ap (λ x. c == x) e, other)))
  ]

-- The fetches are of configurations that the cache lacks, and of each once.
abbrev pub Fresh : IndexMap Pairs → List Str → Type 0
Fresh cache cs = All (λ c. get cache c ≡ none) cs × Distinct cs

Fresh-later :
    (cache : IndexMap Pairs) (c : Str) (pairs : Pairs) (cs : List Str)
    → get cache c ≡ none
    → Fresh ((c, pairs) ∷ cache) cs
    → Fresh cache (c ∷ cs)
Fresh-later cache c pairs cs absent (h, distinct) = ((absent, go cs h), (gone cs h, distinct))
  where
    go :
        (ds : List Str)
        → All (λ d. get ((c, pairs) ∷ cache) d ≡ none) ds
        → All (λ d. get cache d ≡ none) ds
    go [] k = tt
    go (d ∷ ds) k = ((get-none cache c pairs d k.0).0, go ds k.1)

    gone : (ds : List Str) → All (λ d. get ((c, pairs) ∷ cache) d ≡ none) ds → All (λ d. c ≢ d) ds
    gone [] k = tt
    gone (d ∷ ds) k = ((get-none cache c pairs d k.0).1, gone ds k.1)

-- What the preflight loop promises from a resolver on.
pub record Ready (pf : PipelineFile) (branch : Str) (steps : IndexMap Step) (r : SecretsResolver)
    (p : Preflight) : Type 0 where
  pub fresh : Fresh r.cache (fetches p.0)
  pub keeps : (o : Option Str) → Has r.cache o → Has p.1.cache o
  pub ready : p.2 ≡ none → All (λ e. Has p.1.cache (wanted pf branch e.1)) steps

module _ (pf : PipelineFile) (branch name : Str) (step : Step) (steps : IndexMap Step)
    (rest : SecretsResolver → Preflight)
    (k : (r : SecretsResolver) → Ready pf branch steps r (rest r)) where
  none-Ready :
      (r : SecretsResolver)
      → wanted pf branch step ≡ none
      → Ready pf branch ((name, step) ∷ steps) r (next_step name rest ([], r, ok []))
  none-Ready r e = record {
    fresh = (k r).fresh;
    keeps = (k r).keeps;
    ready = λ s. (rw e tt, (k r).ready s);
  }

  some-Ready :
      (r : SecretsResolver) (c : Str) (l : Loaded)
      → wanted pf branch step ≡ some c
      → Loads r c l
      → Ready pf branch ((name, step) ∷ steps) r (next_step name rest l)
  some-Ready r c l e (hit {pairs = pairs} found) = record {
    fresh = (k r).fresh;
    keeps = (k r).keeps;
    ready = λ s. (rw e ((k r).keeps (some c) (pairs, found)), (k r).ready s);
  }
  some-Ready r c l e (fetched {pairs = pairs} {r' = r'} absent grown) = record {
    fresh =
        Fresh-later r.cache c pairs _ absent
          (subst (λ m. Fresh m (fetches (rest r').0)) grown (k r').fresh);
    keeps =
        λ o h. (k r').keeps o (subst (λ m. Has m o) (sym grown) (Has-later r.cache c pairs o h));
    ready = λ s. (
      rw e (
          (k r').keeps (some c)
            (subst (λ m. Has m (some c)) (sym grown) (pairs, get-here r.cache c pairs))),
      (k r').ready s,
    );
  }
  some-Ready r c l e (failed absent) = record {
    fresh = ((absent, tt), (tt, tt));
    keeps = λ o h. h;
    ready = λ s. absurd (cc s);
  }

pub preflight-Ready :
    (provider : Str → Str → Result Str Pairs) (pf : PipelineFile) (branch : Str)
    (steps : IndexMap Step) (r : SecretsResolver)
    → Ready pf branch steps r (preflight provider pf branch steps r)
unfolding preflight
preflight-Ready provider pf branch [] r = record {
  fresh = (tt, tt);
  keeps = λ o h. h;
  ready = λ s. tt;
}
preflight-Ready provider pf branch ((name, step) ∷ steps) r =
    elim (Option-cases (wanted pf branch step)) [
      | inl e ↦ rw e (
          none-Ready pf branch name step steps (preflight provider pf branch steps)
            (preflight-Ready provider pf branch steps) r e)
      | inr (c, e) ↦ rw e (
          some-Ready pf branch name step steps (preflight provider pf branch steps)
            (preflight-Ready provider pf branch steps) r c (load provider r c) e
            (load-Loads provider r c))
    ]
