-- ===== src/Executor/Tests.antt =====
-- The theorems on the steps of a jail at concrete contexts.
use flowz.Prelude.{Str, lit, true, false, List, [], ◌∷◌, ◌++◌, none, some, ◌≡◌, refl, contains_char}
use flowz.Executor.{
  Command, StepContext, DailExecutor, default_dail, Output, ended, run_dail, remove_jail,
  env_file_path, TempDir,
}
use flowz.Executor.Commands.{
  commands, files_after, has_bad, run_dail-files, run_dail-removes_jail, commands-env,
}

abbrev jail : DailExecutor
jail = default_dail (λ name. true)

abbrev calm : Command → Output
calm c = ended (lit "ok" ∷ []) [] (some 0)

abbrev ctx : StepContext
ctx = record {
  run_id = lit "0123456789";
  step_name = lit "Build it";
  run_file = lit "build.sh";
  workspace = lit "/ws";
  env = (lit "TOKEN", lit "s3cret") ∷ [];
  home_dir = none;
  mounts = [];
}

-- The files can be written.
abbrev tmp : TempDir
tmp = record { path = lit "/tmp"; open_error = none; write_error = λ line. none }

run_dail-files_example :
    (tmp.open_error ≡ none
      → has_bad tmp ctx.env ≡ false
      → files_after [] (run_dail calm tmp jail ctx).0 ≡ [])
    × (tmp.open_error ≡ none
        → has_bad tmp ctx.env ≡ true
        → (files_after [] (run_dail calm tmp jail ctx).0 ≡ env_file_path (lit "/tmp") ctx ∷ [])
          × (commands (run_dail calm tmp jail ctx).0 ≡ remove_jail jail ctx ∷ []))
    × ((e : Str)
        → tmp.open_error ≡ some e
        → (files_after [] (run_dail calm tmp jail ctx).0 ≡ [])
          × (commands (run_dail calm tmp jail ctx).0 ≡ remove_jail jail ctx ∷ []))
run_dail-files_example = run_dail-files calm tmp jail ctx

run_dail-removes_jail_example :
    (before : List Command) × (commands (run_dail calm tmp jail ctx).0
      ≡ before ++ remove_jail jail ctx ∷ [])
run_dail-removes_jail_example = run_dail-removes_jail calm tmp jail ctx

one_line : has_bad tmp ((lit "A", lit "1") ∷ []) ≡ false
unfolding contains_char
one_line = refl

other_line : has_bad tmp ((lit "B", lit "2") ∷ []) ≡ false
unfolding contains_char
other_line = refl

commands-env_example :
    commands (run_dail calm tmp jail (record ctx { env = (lit "A", lit "1") ∷ [] })).0
    ≡ commands (run_dail calm tmp jail (record ctx { env = (lit "B", lit "2") ∷ [] })).0
commands-env_example =
    commands-env calm tmp jail ctx (lit "A", lit "1") (lit "B", lit "2") [] [] one_line other_line
