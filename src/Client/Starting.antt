-- ===== src/Client/Starting.antt =====
-- The task that the answer to `prepare_upload_file` starts.
use mathlib.Core.List.{Perm}
use mathlib.Core.List.Perm
use vosfs.Common.{ℕ, ◌+◌, ◌≡◌, ◌≢◌, ◌<◌, ◌∷◌, [], ◌++◌, none, length, All, ℕ_discrete, List, Str}
use vosfs.Common.Map.{Map, find}
use vosfs.Api.{BlockInfo}
use vosfs.Client.Defs.{Client, Job, BlockTask}
use vosfs.Client.Confirmations.{finished, BlockIsCounted}
use vosfs.Client.Completion.{outstanding}

-- No number stands in the list twice.
abbrev pub IsDistinct : List ℕ → Type 0
IsDistinct [] = Unit
IsDistinct (x ∷ xs) = All (λ y. x ≢ y) xs × IsDistinct xs

abbrev pub ids_of : List BlockInfo → List ℕ
ids_of [] = []
ids_of (b ∷ bs) = b.id ∷ ids_of bs

-- A block is placed on at least one node, and on no node twice.
abbrev pub IsPlacedOnce : BlockInfo → Type 0
IsPlacedOnce b = IsDistinct b.data_node_id × (0 < length b.data_node_id)

-- One upload for each block and each of its nodes.
abbrev pub node_uploads : Str → ℕ → ℕ → ℕ → ℕ → List ℕ → List Job
node_uploads path id ino offset size [] = []
node_uploads path id ino offset size (node ∷ nodes) =
    Job.send_upload_block path id ino offset size node ∷ node_uploads path id ino offset size nodes

abbrev pub all_uploads : Str → List BlockInfo → List Job
all_uploads path [] = []
all_uploads path (b ∷ bs) =
    node_uploads path b.id b.ino b.offset b.size b.data_node_id ++ all_uploads path bs

module _ {V : Type 0} where
  abbrev AreFresh : Map ℕ V → List ℕ → Type 0
  AreFresh m ids = All (λ id. find ℕ_discrete id m ≡ none) ids

-- What is known of the blocks of a task as they are added.
abbrev Added : Str → List BlockInfo → Map ℕ BlockTask → Map ℕ BlockTask → Type 0
Added path bs m new =
    All BlockIsCounted new
    × (length new ≡ length bs + length m)
    × (finished new ≡ finished m)
    × (outstanding new ≡ length (all_uploads path bs) + outstanding m)
