-- ===== src/Agent/Events/Kept.antt =====
-- The events of some kind among those of a run.
use flowz.Prelude.{
  Bool, false, List, [], ◌∷◌, ◌++◌, map, flat_map, keep, ◌≡◌, refl, Bool-cases, inl, inr,
}
use flowz.Agent.Events.{Event}

module _ (p : Event → Bool) where
  pub keep-append : (es ds : List Event) → keep p (es ++ ds) ≡ keep p es ++ keep p ds
  keep-append [] ds = refl
  keep-append (e ∷ es) ds = elim (Bool-cases (p e)) [
    | inl on ↦ rw (on, keep-append es ds)
    | inr off ↦ rw (off, keep-append es ds)
  ]

  pub keep_none-append :
      (es ds : List Event) → keep p es ≡ [] → keep p ds ≡ [] → keep p (es ++ ds) ≡ []
  keep_none-append es ds h k = rw (keep-append es ds, h, k)

  -- Events of other kinds may stand before.
  pub keep-after : (es ds : List Event) → keep p es ≡ [] → keep p (es ++ ds) ≡ keep p ds
  keep-after es ds h = rw (keep-append es ds, h)

  pub keep_none-map :
      {A : Type 0} (f : A → Event)
      → ((a : A) → p (f a) ≡ false)
      → (xs : List A) → keep p (map f xs) ≡ []
  keep_none-map f h [] = refl
  keep_none-map f h (a ∷ xs) = rw (h a, keep_none-map f h xs)

  pub keep_none-flat_map :
      {A : Type 0} (f : A → List Event)
      → ((a : A) → keep p (f a) ≡ [])
      → (xs : List A) → keep p (flat_map f xs) ≡ []
  keep_none-flat_map f h [] = refl
  keep_none-flat_map f h (a ∷ xs) =
      keep_none-append (f a) (flat_map f xs) (h a) (keep_none-flat_map f h xs)
