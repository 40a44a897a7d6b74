-- ===== src/Agent/Events/Status.antt =====
-- The status that the posts of a run leave it with.
use flowz.Prelude.{List, [], ◌∷◌, ◌++◌, Option, none, some, ◌≡◌, refl, ap, ◌∙◌}
use flowz.Model.{RunStatus}
use flowz.Agent.Events.{Event, post_body}

abbrev pub later : Option RunStatus → Option RunStatus → Option RunStatus
later none status = status
later (some s) status = some s

abbrev status_of : Event → Option RunStatus
status_of (post_body status step) = some status
status_of _ = none

-- The status of a run behind its posts: that of the last of them, whatever it says of a step.
abbrev pub last_status : List Event → Option RunStatus
last_status [] = none
last_status (e ∷ es) = later (last_status es) (status_of e)

later_assoc : (a b c : Option RunStatus) → later (later a b) c ≡ later a (later b c)
later_assoc none b c = refl
later_assoc (some s) b c = refl

pub later-none : (o : Option RunStatus) → o ≡ later o none
later-none none = refl
later-none (some s) = refl

last_status-append :
    (es ds : List Event) → last_status (es ++ ds) ≡ later (last_status ds) (last_status es)
last_status-append [] ds = later-none (last_status ds)
last_status-append (e ∷ es) ds =
    ap (λ o. later o (status_of e)) (last_status-append es ds)
    ∙ later_assoc (last_status ds) (last_status es) (status_of e)

-- The last status of events is that of those behind, where there is one.
pub last_status-behind :
    (es ds : List Event) {s : RunStatus} → last_status ds ≡ some s → last_status (es ++ ds) ≡ some s
last_status-behind es ds h = last_status-append es ds ∙ ap (λ o. later o (last_status es)) h

pub last_status-before :
    (es ds : List Event) → last_status ds ≡ none → last_status (es ++ ds) ≡ last_status es
last_status-before es ds h = last_status-append es ds ∙ ap (λ o. later o (last_status es)) h
