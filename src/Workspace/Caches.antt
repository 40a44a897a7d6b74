-- ===== src/Workspace/Caches.antt =====
-- What becomes of a cache.
use flowz.Prelude.{
  Str, lit, contains_char, Bool, true, false, [], ◌∷◌, ◌++◌, Option, none, some, ◌≡◌, refl, sym,
  subst, ◌∙◌, ◌⊎◌, inl, inr,
}
use flowz.Workspace.Names.{
  clone_of, old_of, base-ne-clone, clone-ne-base, base-ne-old, base_apart_clone, old_apart_clone,
  old_apart_base,
}
use flowz.Workspace.Machine.{Machine, context, when, zfs, dataset_exists}
use flowz.Workspace.Prepare.{CacheClone}
use flowz.Workspace.Finish.{commit_cache}
use flowz.Workspace.Datasets.{
  Ensures, Ensures-then, Ensures-weaker, Ensures-in_context, Ensures-both, View, Same, Inherited,
  Promoted, Renamed, Within, Dropped, Snapped, Zfs,
}

module _ (machine : Machine) (view : View machine) (priv_tool : Str)
    (laws : Zfs machine view priv_tool) (base run_id : Str)
    (no_at : contains_char base b'@' ≡ false) (restored : Bool) (s0 : machine.State) where
  open view use {Content, content, origin}

  abbrev clone : Str
  clone = clone_of base run_id

  abbrev latest : Option Str
  latest = some (lit "latest")

  -- The cache was cloned of the latest snapshot, or it was made anew and has none.
  abbrev pub Attached : Bool → machine.State → Type 0
  Attached true s = origin s (clone_of base run_id) ≡ some (base, lit "latest")
  Attached false s = content s (clone_of base run_id) (some (lit "latest")) ≡ none

  -- The latest snapshot from before, or none.
  abbrev pub Kept : Option Content → Type 0
  Kept v = (v ≡ content s0 base (some (lit "latest"))) ⊎ (v ≡ none)

  abbrev pub Fails : machine.State → Type 0
  Fails s = Kept (content s base (some (lit "latest")))

  abbrev Fresh : machine.State → Type 0
  Fresh s =
      (content s clone none ≡ content s0 clone none)
      × (content s base latest ≡ content s0 base latest)
      × Attached restored s

  abbrev Ready : machine.State → Type 0
  Ready s = (content s clone none ≡ content s0 clone none) × Kept (content s clone latest) × Fails s

  abbrev Moved : machine.State → Type 0
  Moved s = (content s base none ≡ content s0 clone none) × Fails s

  abbrev pub Commits : machine.State → Type 0
  Commits s = content s base (some (lit "latest")) ≡ content s0 (clone_of base run_id) none

  same-Kept : (v w : Option Content) → w ≡ v → Kept v → Kept w
  same-Kept v w e (inl h) = inl (e ∙ h)
  same-Kept v w e (inr h) = inr (e ∙ h)

  Same-Fails : (s s' : machine.State) → Same machine view s s' → Fails s → Fails s'
  Same-Fails s s' same h =
      same-Kept (content s base latest) (content s' base latest) (same base latest) h

  Attached-same :
      (b : Bool) (s s' : machine.State)
      → Inherited machine view clone s s'
      → Attached b s
      → Attached b s'
  Attached-same true s s' (same, o) h = o ∙ h
  Attached-same false s s' (same, o) h = same clone latest ∙ h

  inherits :
      (b : Bool) (text : Str) (s : machine.State)
      → Fresh s
      → Ensures Fresh Fails (
          when b
            (context text (zfs machine priv_tool (lit "inherit" ∷ lit "mountpoint" ∷ clone ∷ [])))
            s)
  inherits false text s h = h
  inherits true text s (live, snap, att) = Ensures-in_context Fresh Fails text _ (
      Ensures-weaker (Inherited machine view clone s) Fresh (Same machine view s) Fails _
        (laws.inherit_lem clone s)
        (λ s' h. (h.0 clone none ∙ live, h.0 base latest ∙ snap, Attached-same restored s s' h att))
        (λ s' same. inl (same base latest ∙ snap)))

  promotes :
      (b : Bool) (text : Str) (s : machine.State)
      → b ≡ restored
      → Fresh s
      → Ensures Ready Fails
          (when b (context text (zfs machine priv_tool (lit "promote" ∷ clone ∷ []))) s)
  promotes b text s e (live, snap, att) = go b (subst (λ r. Attached r s) (sym e) att)
    where
      go :
          (c : Bool)
          → Attached c s
          → Ensures Ready Fails
              (when c (context text (zfs machine priv_tool (lit "promote" ∷ clone ∷ []))) s)
      go false none_yet = (live, inr none_yet, inl snap)
      go true cloned = Ensures-in_context Ready Fails text _ (
          Ensures-weaker (Promoted machine view clone base (lit "latest") s) Ready
            (Same machine view s) Fails _
            (laws.promote_lem clone base (lit "latest") s cloned (base-ne-clone base run_id))
            (λ s' h. (h.0 ∙ live, inl (h.1 ∙ snap), inr h.2))
            (λ s' same. inl (same base latest ∙ snap)))

  Same-Ready : (s s' : machine.State) → Same machine view s s' → Ready s → Ready s'
  Same-Ready s s' same (live, own, there) = (
    same clone none ∙ live,
    same-Kept (content s clone latest) (content s' clone latest) (same clone latest) own,
    Same-Fails s s' same there,
  )

  lists :
      (s : machine.State) → Ready s → Ensures Ready Fails (dataset_exists machine priv_tool base s)
  lists s h =
      let after = dataset_exists machine priv_tool base s in
      let kept = Same-Ready s after.1 (laws.list_lem base s) h in
      Ensures-both Ready Fails after kept kept.2

  sets_aside :
      (b : Bool) (text : Str) (s : machine.State)
      → Ready s
      → Ensures Ready Fails (
          when b
            (context text (zfs machine priv_tool (lit "rename" ∷ base ∷ old_of base run_id ∷ [])))
            s)
  sets_aside false text s h = h
  sets_aside true text s (live, own, there) = Ensures-in_context Ready Fails text _ (
      Ensures-weaker (Renamed machine view base (old_of base run_id) s) Ready (Same machine view s)
        Fails _ (laws.rename_lem base (old_of base run_id) s (base-ne-old base run_id))
        (λ s' h. (
          h.2 clone none (base_apart_clone base run_id) (old_apart_clone base run_id) ∙ live,
          same-Kept (content s clone latest) (content s' clone latest)
              (h.2 clone latest (base_apart_clone base run_id) (old_apart_clone base run_id)) own,
          inr (h.1 latest),
        ))
        (λ s' same. Same-Fails s s' same there))

  takes_over :
      (text : Str) (s : machine.State)
      → Ready s
      → Ensures Moved Fails
          (context text (zfs machine priv_tool (lit "rename" ∷ clone ∷ base ∷ [])) s)
  takes_over text s (live, own, there) = Ensures-in_context Moved Fails text _ (
      Ensures-weaker (Renamed machine view clone base s) Moved (Same machine view s) Fails _
        (laws.rename_lem clone base s (clone-ne-base base run_id))
        (λ s' h. (
          h.0 none ∙ live,
          same-Kept (content s clone latest) (content s' base latest) (h.0 latest) own,
        ))
        (λ s' same. Same-Fails s s' same there))

  Within-Moved :
      (s s' : machine.State) → Within machine view (old_of base run_id) s s' → Moved s → Moved s'
  Within-Moved s s' h (live, there) = (
    h base none (old_apart_base base run_id) ∙ live,
    same-Kept (content s base latest) (content s' base latest)
        (h base latest (old_apart_base base run_id)) there,
  )

  drops_old :
      (b : Bool) (text : Str) (s : machine.State)
      → Moved s
      → Ensures Moved Fails (
          when b
            (context text
              (zfs machine priv_tool (lit "destroy" ∷ lit "-r" ∷ old_of base run_id ∷ [])))
            s)
  drops_old false text s h = h
  drops_old true text s h =
      let frame = Within machine view (old_of base run_id) s in
      Ensures-in_context Moved Fails text _ (
        Ensures-weaker frame Moved frame Fails _ (laws.destroy_below_lem (old_of base run_id) s)
          (λ s' k. Within-Moved s s' k h) (λ s' k. (Within-Moved s s' k h).1))

  drops_latest :
      (b : Bool) (text : Str) (s : machine.State)
      → Moved s
      → Ensures Moved Fails (
          when b
            (context text (zfs machine priv_tool (lit "destroy" ∷ (base ++ lit "@latest") ∷ [])))
            s)
  drops_latest false text s h = h
  drops_latest true text s (live, there) = Ensures-in_context Moved Fails text _ (
      Ensures-weaker (Dropped machine view base (lit "latest") s) Moved (Same machine view s) Fails
        _ (laws.destroy_lem base (lit "latest") s no_at) (λ s' h. (h.1 ∙ live, inr h.0))
        (λ s' same. Same-Fails s s' same there))

  takes_snapshot :
      (text : Str) (s : machine.State)
      → Moved s
      → Ensures Commits Fails
          (context text (zfs machine priv_tool (lit "snapshot" ∷ (base ++ lit "@latest") ∷ [])) s)
  takes_snapshot text s (live, there) = Ensures-in_context Commits Fails text _ (
      Ensures-weaker (Snapped machine view base (lit "latest") s) Commits (Same machine view s)
        Fails _ (laws.snapshot_lem base (lit "latest") s no_at) (λ s' h. h ∙ live)
        (λ s' same. Same-Fails s s' same there))

  abbrev pub cache_of : Bool → CacheClone
  cache_of in_workspace = record {
    base = base;
    clone = clone_of base run_id;
    restored = restored;
    in_workspace = in_workspace;
  }

  -- A cache that is committed becomes what its clone holds: that is the latest snapshot after a success.
  -- After a failure, at whatever command, the latest snapshot is the one from before, or there is none.
  -- Assumed is what ZFS says of its commands; the clone was made of the latest snapshot, or it is new and
  -- has none; and the name of the cache has no `@`.
  pub commit_cache-Commits :
      (in_workspace : Bool)
      → Attached restored s0
      → Ensures Commits Fails (commit_cache machine priv_tool run_id (cache_of in_workspace) s0)
  unfolding commit_cache
  commit_cache-Commits in_workspace att =
      Ensures-then Fresh Commits Fails _ _ (inherits in_workspace _ s0 (refl, refl, att))
        λ _ s1 fresh.
          Ensures-then Ready Commits Fails _ _ (promotes restored _ s1 refl fresh) λ _ s2 ready.
            Ensures-then Ready Commits Fails _ _ (lists s2 ready) λ had_base s3 listed.
              Ensures-then Ready Commits Fails _ _ (sets_aside had_base _ s3 listed) λ _ s4 aside.
                Ensures-then Moved Commits Fails _ _ (takes_over _ s4 aside) λ _ s5 over.
                  Ensures-then Moved Commits Fails _ _ (drops_old had_base _ s5 over) λ _ s6 moved.
                    Ensures-then Moved Commits Fails _ _ (drops_latest restored _ s6 moved)
                      λ _ s7 dropped. takes_snapshot _ s7 dropped
