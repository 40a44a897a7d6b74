-- ===== src/Store/Repos.antt =====
-- The queries on `repos`.
use flowz.Prelude.{Str, ◌==◌, Bool, not, any, keep, if◌then◌else◌, List, [], ◌∷◌, ◌++◌, ok, err}
use flowz.Model.{Repo}
use flowz.Store.Sql.{Engine}
use flowz.Store.Tables.{Db, primary_key, unique, Query}
use flowz.Secrets.{less}

-- `create_repo`
unfoldable pub create_repo : Db → Repo → Query Db
create_repo db repo =
    if any (λ (r : Repo). r.id == repo.id) db.repos
    then err primary_key
    else if any (λ (r : Repo). r.clone_url == repo.clone_url) db.repos
    then err unique
    else ok (record db { repos = db.repos ++ repo ∷ [] })

-- `list_repos`
unfoldable pub list_repos : Engine → Db → List Repo
list_repos engine db = engine.order_by Repo (λ a b. not (less b.name a.name)) db.repos

-- `delete_repo`: whether a row was deleted, and the table.
unfoldable pub delete_repo : Db → Str → Bool × Db
delete_repo db id = (
  any (λ (r : Repo). r.id == id) db.repos,
  record db { repos = keep (λ (r : Repo). not (r.id == id)) db.repos },
)
