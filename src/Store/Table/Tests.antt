-- ===== src/Store/Table/Tests.antt =====
-- The refinement at a run that is stored, claimed and ended.
use flowz.Prelude.{Str, lit, ◌==◌, [], ◌∷◌, some, ok, ◌≡◌, refl}
use flowz.Model.{Run, queued, success}
use flowz.Store.Status.{run_as_str, run_from_str}
use flowz.Store.Sql.Insertion.{insertion_sort}
use flowz.Store.Tables.{Db, empty}
use flowz.Store.Runs.{create_run, get_run, update_run_status, claim_next_job}
use flowz.Store.Table.{stored, claimed, written, Runs, Steps, here, next, stores, claims, writes}
use flowz.Store.Table.Valid.{IsValid}
use flowz.Store.Table.Refines.{Steps-Runs}

abbrev run : Run
run = record {
  id = lit "a";
  repo = lit "o/r";
  branch = lit "main";
  commit = lit "c";
  clone_url = lit "u";
  status = queued;
  created_at = 1;
  updated_at = 1;
}

abbrev with_status : Str → Db
with_status status = record empty {
  runs =
      record {
        id = lit "a";
        repo = lit "o/r";
        branch = lit "main";
        commit = lit "c";
        clone_url = lit "u";
        status = status;
        created_at = 1;
        updated_at = 1;
      }
      ∷ [];
}

abbrev claimed_db : Db
claimed_db = (claim_next_job insertion_sort 2 (with_status (lit "queued"))).1

abbrev last : Db
last = update_run_status 3 claimed_db (lit "a") success

stored_run : create_run empty run ≡ ok (with_status (lit "queued"))
unfolding create_run run_as_str
stored_run = refl

claimed_run : claim_next_job insertion_sort 2 (with_status (lit "queued")) ≡ (some run, claimed_db)
unfolding claim_next_job run_from_str ◌==◌
claimed_run = refl

steps :
    Steps insertion_sort last empty (stored run ∷ claimed 2 run ∷ written 3 (lit "a") success ∷ [])
steps =
    next (stores stored_run) (next (claims claimed_run) (next (writes 3 (lit "a") success) here))

Steps-Runs_example :
    Runs
      (stored run ∷ claimed 2 run ∷ written 3 (lit "a") success ∷ [])
      (get_run empty)
      (get_run last)
    × IsValid last.runs
Steps-Runs_example = Steps-Runs insertion_sort (tt, tt) steps
