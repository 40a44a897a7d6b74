-- ===== src/Store/Table/Valid.antt =====
-- The rows of `runs` that the queries make: each id once, and statuses that are written by the program.
use flowz.Prelude.{
  Str, ◌==◌, ==_iff, Bool, true, false, ◌||◌, any, find, All, if◌then◌else◌, List, [], ◌∷◌, ◌++◌,
  none, some, ◌≡◌, ◌≢◌, refl, ap, ◌∙◌, Bool-cases, inl, inr, or-eq-false, arith,
}
use flowz.Model.{RunStatus}
use flowz.Store.Status.{run_as_str}
use flowz.Store.Tables.{RunRow, update}

abbrev pub has_id : Str → RunRow → Bool
has_id id r = r.id == id

abbrev pub IdsDistinct : List RunRow → Type 0
IdsDistinct [] = Unit
IdsDistinct (r ∷ rows) = (any (has_id r.id) rows ≡ false) × IdsDistinct rows

abbrev pub IsStatus : RunRow → Type 0
IsStatus r = (status : RunStatus) × (r.status ≡ run_as_str status)

abbrev pub IsValid : List RunRow → Type 0
IsValid rows = IdsDistinct rows × All IsStatus rows

any-update :
    (id : Str) (p : RunRow → Bool) (f : RunRow → RunRow) (rows : List RunRow)
    → ((r : RunRow) → (f r).id ≡ r.id)
    → any (has_id id) (update p f rows) ≡ any (has_id id) rows
unfolding update
any-update id p f [] same = refl
any-update id p f (r ∷ rows) same = elim (Bool-cases (p r)) [
  | inl on ↦ rw (on, same r, any-update id p f rows same) refl
  | inr off ↦ rw (off, any-update id p f rows same) refl
]

-- An update that keeps the ids and writes a status keeps the rows valid.
pub update-IsValid :
    (p : RunRow → Bool) (f : RunRow → RunRow) (rows : List RunRow)
    → ((r : RunRow) → (f r).id ≡ r.id)
    → ((r : RunRow) → IsStatus (f r))
    → IsValid rows
    → IsValid (update p f rows)
unfolding update
update-IsValid p f [] same known h = (tt, tt)
update-IsValid p f (r ∷ rows) same known ((fresh, apart), (status, others)) =
    let (apart', others') = update-IsValid p f rows same known (apart, others) in
    elim (Bool-cases (p r)) [
      | inl on ↦ rw on (
        (
          ap (λ id. any (has_id id) (update p f rows)) (same r)
              ∙ (any-update r.id p f rows same ∙ fresh),
          apart',
        ),
        (known r, others'),
      )
      | inr off ↦ rw off ((any-update r.id p f rows same ∙ fresh, apart'), (status, others'))
    ]

any-append :
    (id : Str) (rows : List RunRow) (new : RunRow)
    → any (has_id id) (rows ++ new ∷ []) ≡ (any (has_id id) rows || new.id == id)
any-append id [] new = ground arith
any-append id (r ∷ rows) new = ground (arith, any-append id rows new)

pub append-IsValid :
    (rows : List RunRow) (new : RunRow)
    → IsValid rows
    → any (has_id new.id) rows ≡ false
    → IsStatus new
    → IsValid (rows ++ new ∷ [])
append-IsValid [] new h free status = ((refl, tt), (status, tt))
append-IsValid (r ∷ rows) new ((fresh, apart), (known, others)) free status =
    let (off, rest) = or-eq-false (r.id == new.id) (any (has_id new.id) rows) free in
    let (apart', others') = append-IsValid rows new (apart, others) rest status in
    ((any-append r.id rows new ∙ rw fresh (flipped r.id new.id off), apart'), (known, others'))
  where
    flipped : (s t : Str) → (s == t) ≡ false → (t == s) ≡ false
    flipped s t h = ground (arith, ==_iff s t, ==_iff t s)

pub find-append :
    (id : Str) (rows : List RunRow) (new : RunRow)
    → any (has_id new.id) rows ≡ false
    → find (has_id id) (rows ++ new ∷ [])
      ≡ (if new.id == id then some new else find (has_id id) rows)
find-append id [] new h = refl
find-append id (r ∷ rows) new h =
    ground (arith, ==_iff new.id id, ==_iff r.id id, ==_iff r.id new.id, find-append id rows new)

pub find-none :
    (id : Str) (rows : List RunRow) → any (has_id id) rows ≡ false → find (has_id id) rows ≡ none
find-none id [] h = refl
find-none id (r ∷ rows) h = ground (arith, find-none id rows)

pub find-some :
    (id : Str) (rows : List RunRow) → any (has_id id) rows ≡ true → find (has_id id) rows ≢ none
find-some id [] h e = absurd (cc h)
find-some id (r ∷ rows) h e = elim (Bool-cases (r.id == id)) [
  | inl on ↦ cc (rw on at e)
  | inr off ↦ find-some id rows (rw off at h) (rw off at e)
]
