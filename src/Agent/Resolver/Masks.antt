-- ===== src/Agent/Resolver/Masks.antt =====
-- The masker knows what the resolver has fetched.
use mathlib.Core.List.{Memᴰ}
use flowz.Prelude.{Str, utf8_len, ◌≤◌, [], ◌∷◌, All, Option, none, some, Result, ok, err, inl, inr}
use flowz.Model.{IndexMap, Step, PipelineFile, SecretsConfig}
use flowz.Secrets.{Pairs, Masker, add_all}
use flowz.Secrets.Sorted.{mem-add_all}
use flowz.Agent.Resolver.{
  SecretsResolver, new_resolver, Loaded, load_cached, remember, load, load_wanted, wanted,
  Preflight, next_step, preflight, get,
}

-- The masker has each value of at least four bytes.
abbrev pub Covers : Masker → Pairs → Type 0
Covers m pairs = (key v : Str) → Memᴰ (key, v) pairs → 4 ≤ utf8_len v → Memᴰ v m.values

abbrev pub Masks : SecretsResolver → Type 0
Masks r = All (λ e. Covers r.masker e.1) r.cache

Covers-add_all :
    (m : Masker) (pairs : Pairs) (cache : IndexMap Pairs)
    → All (λ e. Covers m e.1) cache
    → All (λ e. Covers (add_all m pairs) e.1) cache
Covers-add_all m pairs [] h = tt
Covers-add_all m pairs ((c, old) ∷ cache) h = (
  λ key v mem long. (mem-add_all m pairs v).1 (inl (h.0 key v mem long)),
  Covers-add_all m pairs cache h.1,
)

remember-Masks :
    (r : SecretsResolver) (c : Str) (a : Result Str Pairs) → Masks r → Masks (remember r c a).1
remember-Masks r c (ok pairs) h = (
  λ key v mem long. (mem-add_all r.masker pairs v).1 (inr (key, mem, long)),
  Covers-add_all r.masker pairs r.cache h,
)
remember-Masks r c (err e) h = h

load_cached-Masks :
    (provider : Str → Str → Result Str Pairs) (r : SecretsResolver) (c : Str) (found : Option Pairs)
    → Masks r
    → Masks (load_cached provider r c found).1
load_cached-Masks provider r c (some pairs) h = h
load_cached-Masks provider r c none h = remember-Masks r c (provider r.project c) h

load_wanted-Masks :
    (provider : Str → Str → Result Str Pairs) (r : SecretsResolver) (c : Option Str)
    → Masks r
    → Masks (load_wanted provider r c).1
unfolding load
load_wanted-Masks provider r none h = h
load_wanted-Masks provider r (some c) h = load_cached-Masks provider r c (get r.cache c) h

next_step-Masks :
    (name : Str) (rest : SecretsResolver → Preflight) (l : Loaded)
    → ((r : SecretsResolver) → Masks r → Masks (rest r).1)
    → Masks l.1
    → Masks (next_step name rest l).1
next_step-Masks name rest (events, r, ok pairs) k h = k r h
next_step-Masks name rest (events, r, err e) k h = h

preflight-Masks_from :
    (provider : Str → Str → Result Str Pairs) (pf : PipelineFile) (branch : Str)
    (steps : IndexMap Step) (r : SecretsResolver)
    → Masks r
    → Masks (preflight provider pf branch steps r).1
unfolding preflight
preflight-Masks_from provider pf branch [] r h = h
preflight-Masks_from provider pf branch ((name, step) ∷ steps) r h =
    next_step-Masks name (preflight provider pf branch steps)
      (load_wanted provider r (wanted pf branch step))
      (preflight-Masks_from provider pf branch steps)
      (load_wanted-Masks provider r (wanted pf branch step) h)

-- After the preflight loop, wherever it stops, the masker has each value of at least four bytes of each
-- configuration that was fetched.
pub preflight-Masks :
    (provider : Str → Str → Result Str Pairs) (pf : PipelineFile) (branch : Str)
    (steps : IndexMap Step) (sc : SecretsConfig)
    → Masks (preflight provider pf branch steps (new_resolver sc)).1
preflight-Masks provider pf branch steps sc =
    preflight-Masks_from provider pf branch steps (new_resolver sc) tt
