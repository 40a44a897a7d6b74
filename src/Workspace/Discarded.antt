-- ===== src/Workspace/Discarded.antt =====
-- What finishing a workspace as of a failure leaves as it is.
use flowz.Prelude.{
  Str, lit, ◌==◌, contains_char, false, none, ◌⊎◌, inl, inr, ==_iff, Bool-cases, List, [], ◌∷◌,
  ◌++◌, Option, All, ◌≡◌, refl, ◌∙◌,
}
use flowz.Workspace.Machine.{Machine, ignore, zfs}
use flowz.Workspace.Prepare.{CacheClone, clean_zfs}
use flowz.Workspace.Finish.{settle, settle_all, cleanup_zfs, finish}
use flowz.Workspace.Datasets.{
  Ensures-weaker, Ensures-state, touches, View, Same, Within, Dropped, Zfs,
}

module _ (machine : Machine) (view : View machine) (priv_tool : Str)
    (laws : Zfs machine view priv_tool) (e : Str) (x : Option Str) where
  open view use {Content, content}

  -- Destroying a dataset that does not touch this one leaves it.
  destroys :
      (d : Str) (s : machine.State)
      → touches d e ≡ false
      → content (ignore (zfs machine priv_tool (lit "destroy" ∷ lit "-r" ∷ d ∷ [])) s) e x
        ≡ content s e x
  destroys d s apart =
      let frame = Within machine view d s in
      Ensures-state frame _ (laws.destroy_below_lem d s) e x apart

  -- Another dataset, or the content that this one has now.
  abbrev pub Beside : Str → Type 0
  Beside d = ((e == d) ≡ false) ⊎ (x ≡ none)

  unsnapped :
      (d y : Str) (s s' : machine.State)
      → Beside d
      → Dropped machine view d y s s'
      → content s' e x ≡ content s e x
  unsnapped d y s s' (inl other) h = h.2 e x other
  unsnapped d y s s' (inr live) h = elim (Bool-cases (e == d)) [
    | inl same ↦ rw ((==_iff e d).0 same, live) h.1
    | inr other ↦ h.2 e x other
  ]

  drops :
      (d y : Str) (s : machine.State)
      → contains_char d b'@' ≡ false
      → Beside d
      → content (ignore (zfs machine priv_tool (lit "destroy" ∷ (d ++ b'@' ∷ y) ∷ [])) s) e x
        ≡ content s e x
  drops d y s no_at other =
      let stays : machine.State → Type 0 = λ s'. content s' e x ≡ content s e x in
      Ensures-state stays _ (
        Ensures-weaker (Dropped machine view d y s) stays (Same machine view s) stays _
          (laws.destroy_lem d y s no_at) (λ s' h. unsnapped d y s s' other h) (λ s' same. same e x))

  discards :
      (run_id : Str) (caches : List CacheClone) (s : machine.State)
      → All (λ (c : CacheClone). touches c.clone e ≡ false) caches
      → content (settle_all machine priv_tool run_id false caches s) e x ≡ content s e x
  unfolding settle_all
  discards run_id [] s h = refl
  discards run_id (c ∷ caches) s (apart, h) =
      discards run_id caches (ignore (settle machine priv_tool run_id false c) s) h
      ∙ destroys c.clone s apart

  -- To finish a workspace as of a failure changes nothing outside of the clones of the run's caches and of
  -- its workspace, and the datasets below them, but snapshots of the repository's dataset: the content
  -- of that dataset stays, and the contents and the snapshots of all others. Assumed is what ZFS says of
  -- its commands, which may all fail; and the name of that dataset has no `@`.
  pub finish-discards :
      (path clone_ds repo_ds snapshot cache_root run_id : Str) (caches : List CacheClone)
      (s : machine.State)
      → contains_char repo_ds b'@' ≡ false
      → All (λ (c : CacheClone). touches c.clone e ≡ false) caches
      → touches clone_ds e ≡ false
      → Beside repo_ds
      → content
          (finish machine
            (record {
              path = path;
              cleanup = clean_zfs priv_tool clone_ds (repo_ds ++ b'@' ∷ snapshot) cache_root;
              caches = caches;
            })
            run_id
            false
            s)
          e
          x
        ≡ content s e x
  unfolding finish cleanup_zfs
  finish-discards path clone_ds repo_ds snapshot cache_root run_id caches s no_at h apart other =
      let settled = settle_all machine priv_tool run_id false caches s in
      drops repo_ds snapshot
        (ignore (zfs machine priv_tool (lit "destroy" ∷ lit "-r" ∷ clone_ds ∷ [])) settled) no_at
        other
      ∙ destroys clone_ds settled apart
      ∙ discards run_id caches s h
