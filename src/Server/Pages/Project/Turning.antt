-- ===== src/Server/Pages/Project/Turning.antt =====
-- Turning the pages of a project.
use mathlib.Core.List.{map-append}
use flowz.Prelude.{
  ℕ, zero, suc, ◌+◌, ◌-◌, ◌*◌, ◌%◌, ◌^◌, ◌≤◌, ◌<◌, Str, lit, ◌==◌, Bool, true, false, ◌&&◌, ltb,
  if◌then◌else◌, is_empty, length, keep, find, take, drop, List, [], ◌∷◌, ◌++◌, map, Option, none,
  some, ◌≡◌, ◌↔◌, refl, ap, sym, All, all, subst, ◌∙◌, arith,
}
use flowz.Model.{Run, Repo}
use flowz.Store.Sql.{Engine}
use flowz.Store.Tables.{RunRow, Db, to_run, newest_first}
use flowz.Store.Runs.{on_branch, list_project_branches, list_project_runs}
use flowz.Store.Repos.{list_repos}
use flowz.Server.Urls.{project_href, with_params, branch_param, page_param}
use flowz.Server.Pages.{RunView, Display, run_view, is_made}
use flowz.Server.Pages.Project.{
  pos, page_number, i64_offset, page_size, ProjectPage, Answer, not_found, panicked, answer_page,
  shown, not_blank, settings, project_page, with_branches, ui_project,
}

module _ {ℓ} {A : Type ℓ} where
  take-take_more : (m : ℕ) (xs : List A) → take m (take (suc m) xs) ≡ take m xs
  take-take_more zero xs = refl
  take-take_more (suc m) [] = refl
  take-take_more (suc m) (x ∷ xs) = ap (λ ys. x ∷ ys) (take-take_more m xs)

  has_more : (m : ℕ) (xs : List A) → ltb m (length (take (suc m) xs)) ≡ ltb m (length xs)
  has_more zero [] = refl
  has_more zero (x ∷ xs) = ground arith
  has_more (suc m) [] = refl
  has_more (suc m) (x ∷ xs) = ground (arith, has_more m xs)

  length-drop : (k : ℕ) (xs : List A) → length (drop k xs) ≡ length xs - k
  length-drop zero xs = omega arith
  length-drop (suc k) [] = omega arith
  length-drop (suc k) (x ∷ xs) = omega (arith, length-drop k xs)

  take-nil : (n : ℕ) → take {A = A} n [] ≡ []
  take-nil zero = refl
  take-nil (suc n) = refl

  take-drop : (k m : ℕ) (xs : List A) → take k xs ++ take m (drop k xs) ≡ take (k + m) xs
  take-drop zero m xs = let e : 0 + m ≡ m = omega arith in rw e refl
  take-drop (suc k) m [] = take-nil m ∙ sym (take-nil (suc k + m))
  take-drop (suc k) m (x ∷ xs) =
      let e : suc k + m ≡ suc (k + m) = omega arith in rw e (ap (λ ys. x ∷ ys) (take-drop k m xs))

  length-take-le : (m : ℕ) (xs : List A) → length (take m xs) ≤ m
  length-take-le zero xs = omega arith
  length-take-le (suc m) [] = omega arith
  length-take-le (suc m) (x ∷ xs) = omega (arith, length-take-le m xs)

module _ {ℓ κ} {A : Type ℓ} {B : Type κ} (f : A → B) where
  map-take : (n : ℕ) (xs : List A) → take n (map f xs) ≡ map f (take n xs)
  map-take zero xs = refl
  map-take (suc n) [] = refl
  map-take (suc n) (x ∷ xs) = ap (λ ys. f x ∷ ys) (map-take n xs)

  length-map : (xs : List A) → length (map f xs) ≡ length xs
  length-map [] = refl
  length-map (x ∷ xs) = ap (λ n. suc n) (length-map xs)

page_number-suc : (n : ℕ) → page_number (some (pos (suc n))) ≡ suc n
page_number-suc n = ground arith

i64_offset-small : (p : ℕ) → p < 2 ^ 63 → i64_offset p ≡ p
i64_offset-small p h = let e : p % 2 ^ 64 ≡ p = omega arith in rw e (ground arith)

with_params-not_empty :
    (repo : Str) (ps : List Str) → is_empty (with_params (lit "/projects/" ++ repo) ps) ≡ false
with_params-not_empty repo [] = refl
with_params-not_empty repo (p ∷ ps) = refl

module _ {A : Type 0} (P : A → Type 0) where
  All-take : (n : ℕ) (xs : List A) → All P xs → All P (take n xs)
  All-take zero xs h = tt
  All-take (suc n) [] h = tt
  All-take (suc n) (x ∷ xs) h = (h.0, All-take n xs h.1)

  All-drop : (n : ℕ) (xs : List A) → All P xs → All P (drop n xs)
  All-drop zero xs h = h
  All-drop (suc n) [] h = tt
  All-drop (suc n) (x ∷ xs) h = All-drop n xs h.1

all-map :
    {A B : Type 0} (p : B → Bool) (f : A → B) (xs : List A)
    → All (λ x. p (f x) ≡ true) xs
    → all p (map f xs) ≡ true
all-map p f [] h = refl
all-map p f (x ∷ xs) h = rw h.0 (all-map p f xs h.1)

abbrev pub prev_of : Answer → Str
prev_of not_found = []
prev_of panicked = []
prev_of (shown p) = p.prev_href

abbrev pub runs_on : Answer → List RunView
runs_on not_found = []
runs_on panicked = []
runs_on (shown p) = p.runs

abbrev pub next_of : Answer → Str
next_of not_found = []
next_of panicked = []
next_of (shown p) = p.next_href

module _ (engine : Engine) (d : Display) (db : Db) (repo : Str) (branch : Option Str) where
  -- The runs of the project, on the branch where one is chosen, the newest first.
  abbrev pub runs_of : List RunRow
  runs_of =
      engine.order_by RunRow newest_first
        (keep (λ (r : RunRow). r.repo == repo && on_branch (not_blank branch) r) db.runs)

  abbrev pub view : RunRow → RunView
  view row = run_view d (to_run row)

  abbrev pub turn : ℕ → Answer
  turn n = ui_project engine d db repo branch (some (pos n))

  -- What is on the pages from 1 to n, one after the other.
  abbrev pub pages : ℕ → List RunView
  pages zero = []
  pages (suc n) = pages n ++ runs_on (turn (suc n))

  -- The address of a page, for the same branch.
  abbrev pub link_to : ℕ → Str
  link_to m = project_href d.encode repo (not_blank branch) m

  -- The page m, which is `suc n`, shows its rows, and links to those around it.
  abbrev Turns : ℕ → ℕ → Answer → Type 0
  Turns n m answer =
      (runs_on answer ≡ map view (take page_size (drop (n * page_size) runs_of)))
      × (prev_of answer ≡ (if ltb 1 m then link_to (m - 1) else []))
      × (next_of answer ≡ (
          if ltb page_size (length runs_of - n * page_size)
          then link_to ((m + 1) % 2 ^ 63)
          else []))

  -- The rows that are read for the page, and what the page makes of them.
  module _ (offset : ℕ) where
    abbrev read : List Run
    read = map to_run (take (suc page_size) (drop offset runs_of))

    shows : map (run_view d) (take page_size read) ≡ map view (take page_size (drop offset runs_of))
    shows =
        ap (map (run_view d)) (
          map-take to_run page_size (take (suc page_size) (drop offset runs_of))
          ∙ ap (map to_run) (take-take_more page_size (drop offset runs_of)))
        ∙ map-map (take page_size (drop offset runs_of))
      where
        map-map : (rows : List RunRow) → map (run_view d) (map to_run rows) ≡ map view rows
        map-map [] = refl
        map-map (r ∷ rows) = ap (λ vs. view r ∷ vs) (map-map rows)

    goes_on : ltb page_size (length read) ≡ ltb page_size (length runs_of - offset)
    goes_on =
        ap (ltb page_size) (length-map to_run (take (suc page_size) (drop offset runs_of)))
        ∙ has_more page_size (drop offset runs_of)
        ∙ ap (ltb page_size) (length-drop offset runs_of)

  link_shown :
      (more : Bool) (m : ℕ)
      → is_empty (if more then link_to m else []) ≡ (if more then false else true)
  link_shown true m =
      with_params-not_empty repo (branch_param d.encode (not_blank branch) ++ page_param m)
  link_shown false m = refl

  module _ (made : All (λ row. is_made (view row) ≡ true) runs_of) where
    shown-Turns :
        (m n : ℕ) (c : Option Repo) (bs : List Str) (s : Str × Str)
        → i64_offset ((m - 1) * page_size) ≡ n * page_size
        → Turns n m (
            answer_page (
              project_page engine d db repo (not_blank branch) m c bs s (
                list_project_runs engine db repo
                  (not_blank branch)
                  (suc page_size)
                  (i64_offset ((m - 1) * page_size)))))
    unfolding list_project_runs
    shown-Turns m n c bs s e =
        let offset = n * page_size in
        let p = project_page engine d db repo (not_blank branch) m c bs s (read offset) in
        let all_made : all is_made (map (run_view d) (take page_size (read offset))) ≡ true =
          ap (all is_made) (shows offset)
          ∙ all-map is_made view (take page_size (drop offset runs_of)) (
              All-take (λ row. is_made (view row) ≡ true) page_size (drop offset runs_of)
                (All-drop (λ row. is_made (view row) ≡ true) offset runs_of made)) in
        rw e (
          subst (λ ok_rows. Turns n m (if ok_rows then shown p else panicked)) (sym all_made)
            (
              shows offset,
              refl,
              ap (λ more. if more then link_to ((m + 1) % 2 ^ 63) else []) (goes_on offset),
            ))

    found-Turns :
        (m n : ℕ) (c : Option Repo) (bs : List Str) {p : ProjectPage}
        → i64_offset ((m - 1) * page_size) ≡ n * page_size
        → with_branches engine d db repo (not_blank branch) 1 c bs ≡ shown p
        → Turns n m (with_branches engine d db repo (not_blank branch) m c bs)
    found-Turns m n none [] e h = absurd (cc h)
    found-Turns m n none (b ∷ bs) e h =
        shown-Turns m n none (b ∷ bs) (settings engine d db repo none) e
    found-Turns m n (some r) [] e h =
        shown-Turns m n (some r) [] (settings engine d db repo (some r)) e
    found-Turns m n (some r) (b ∷ bs) e h =
        shown-Turns m n (some r) (b ∷ bs) (settings engine d db repo (some r)) e

    offset_of :
        (n m : ℕ)
        → n * page_size < 2 ^ 63
        → m ≡ suc n
        → i64_offset ((m - 1) * page_size) ≡ n * page_size
    offset_of n m small e =
        let same : (m - 1) * page_size ≡ n * page_size = omega arith in
        ap i64_offset same ∙ i64_offset-small (n * page_size) small

    turned :
        (n : ℕ) {p : ProjectPage}
        → n * page_size < 2 ^ 63
        → ui_project engine d db repo branch none ≡ shown p
        → Turns n (page_number (some (pos (suc n)))) (turn (suc n))
    unfolding ui_project
    turned n small h =
        let m = page_number (some (pos (suc n))) in
        found-Turns m n (find (λ (r : Repo). r.name == repo) (list_repos engine db))
          (list_project_branches engine db repo) (offset_of n m small (page_number-suc n)) h

    pages-take :
        (n : ℕ) {p : ProjectPage}
        → n * page_size < 2 ^ 63
        → ui_project engine d db repo branch none ≡ shown p
        → pages n ≡ map view (take (n * page_size) runs_of)
    pages-take zero small h = refl
    pages-take (suc n) small h =
        let count : n * page_size + page_size ≡ suc n * page_size = omega arith in
        ap (λ vs. vs ++ runs_on (turn (suc n))) (pages-take n (omega arith) h)
        ∙ ap (λ vs. map view (take (n * page_size) runs_of) ++ vs) (turned n (omega arith) h).0
        ∙ sym (
            map-append view (take (n * page_size) runs_of)
              (take page_size (drop (n * page_size) runs_of)))
        ∙ ap (map view) (take-drop (n * page_size) page_size runs_of)
        ∙ ap (λ k. map view (take k runs_of)) count

    at_most_a_page :
        (vs : List RunView) (rows : List RunRow)
        → vs ≡ map view (take page_size rows)
        → length vs ≤ page_size
    at_most_a_page vs rows e =
        rw (e, length-map view (take page_size rows)) (length-take-le page_size rows)

    link_iff :
        (n count : ℕ) (link : Str)
        → is_empty link ≡ (if ltb page_size (count - n * page_size) then false else true)
        → (is_empty link ≡ false) ↔ (suc n * page_size < count)
    link_iff n count link e = ground arith

    prev_link :
        (n m : ℕ)
        → m ≡ suc n
        → (if ltb 1 m then link_to (m - 1) else []) ≡ (if ltb 0 n then link_to n else [])
    prev_link n m e =
        let first : ltb 1 m ≡ ltb 0 n = ground arith in
        let before : m - 1 ≡ n = omega arith in rw (first, before) refl

    next_link :
        (n m count : ℕ)
        → suc n * page_size < 2 ^ 63
        → m ≡ suc n
        → (if ltb page_size (count - n * page_size) then link_to ((m + 1) % 2 ^ 63) else [])
          ≡ (if ltb (suc n * page_size) count then link_to (suc (suc n)) else [])
    next_link n m count small e =
        let more : ltb page_size (count - n * page_size) ≡ ltb (suc n * page_size) count =
          ground arith in
        let behind : (m + 1) % 2 ^ 63 ≡ suc (suc n) = omega arith in rw (more, behind) refl

    -- The pages of a project that is known show its runs, the newest first, each once: those from the first
    -- to the n-th page are the first n * 50 runs. No page shows more than 50. The n-th links to the page
    -- before it unless it is the first, and to the page behind it exactly where there are more than n * 50
    -- runs. The offsets of the pages are numbers of 63 bits, and no id and no commit of the runs has a
    -- character across the end of its short form.
    pub ui_project-pages :
        (n : ℕ) (p : ProjectPage)
        → suc n * page_size < 2 ^ 63
        → ui_project engine d db repo branch none ≡ shown p
        → (pages (suc n) ≡ map view (take (suc n * page_size) runs_of))
          × (length (runs_on (turn (suc n))) ≤ page_size)
          × (prev_of (turn (suc n)) ≡ (if ltb 0 n then link_to n else []))
          × (next_of (turn (suc n))
              ≡ (if ltb (suc n * page_size) (length runs_of) then link_to (suc (suc n)) else []))
          × ((is_empty (next_of (turn (suc n))) ≡ false) ↔ (suc n * page_size < length runs_of))
    ui_project-pages n p small h =
        let (rows, prev, next) = turned n (omega arith) h in
        let m = page_number (some (pos (suc n))) in
        (
          pages-take (suc n) small h,
          at_most_a_page (runs_on (turn (suc n))) (drop (n * page_size) runs_of) rows,
          prev ∙ prev_link n m (page_number-suc n),
          next ∙ next_link n m (length runs_of) small (page_number-suc n),
          link_iff n (length runs_of) (next_of (turn (suc n))) (
              ap is_empty next
              ∙ link_shown (ltb page_size (length runs_of - n * page_size)) ((m + 1) % 2 ^ 63)),
        )
