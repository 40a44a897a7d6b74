-- ===== src/Agent/Steps/Masking.antt =====
-- The lines of a step on their way to the server.
use mathlib.Core.List.{Memᴰ}
use flowz.Prelude.{Str, contains, false, List, [], ◌∷◌, map, All, ◌≡◌}
use flowz.Secrets.{Masker, mask}
use flowz.Secrets.Masked.{IsMaskable, mask-gone}
use flowz.Agent.Events.{Event, post_logs}
use flowz.Agent.Steps.{World, consume}

-- A post of log lines shows a value in none of them.
abbrev pub Hides : Str → Event → Type 0
Hides v (post_logs name lines) = All (λ line. contains line v ≡ false) lines
Hides v _ = Unit

module _ (masker : Masker) (v : Str) (known : Memᴰ v masker.values)
    (fit : All IsMaskable masker.values) where
  masked_batch :
      (batch : List Str) → All (λ line. contains line v ≡ false) (map (mask masker) batch)
  masked_batch [] = tt
  masked_batch (line ∷ batch) = (mask-gone masker line v known fit, masked_batch batch)

  masked_batches :
      (name : Str) (batches : List (List Str))
      → All (Hides v) (map (λ batch. post_logs name (map (mask masker) batch)) batches)
  masked_batches name [] = tt
  masked_batches name (batch ∷ batches) = (masked_batch batch, masked_batches name batches)

-- However the lines of a step are cut into bursts, no line that is posted shows a value that the masker
-- holds, provided that none of the values is empty or has the character `*`.
pub consume-Hides :
    (w : World) (masker : Masker) (name v : Str) (lines : List Str)
    → Memᴰ v masker.values
    → All IsMaskable masker.values
    → All (Hides v) (consume w masker name lines)
consume-Hides w masker name v lines known fit =
    masked_batches masker v known fit name (w.batches name lines)
