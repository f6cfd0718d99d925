-- ===== src/Agent/Context/Compaction.antt =====
-- What `_prune_before_latest_compaction` of backend/agent/context_manager.py keeps.
use deepdive.Base.{◌≡◌, refl, false, none, List, [], ◌∷◌, arith, any}
use deepdive.Json.{Fields, Builtins}
use deepdive.Agent.Context.{is_compaction, latest_compaction_index, prune_before_latest_compaction}

module _ (py : Builtins) where
  latest-none :
      (items : List Fields)
      → any (is_compaction py) items ≡ false
      → latest_compaction_index py items ≡ none
  unfolding latest_compaction_index
  latest-none [] h = refl
  latest-none (x ∷ items) h = ground (arith, latest-none items)

  pub prune_without_compaction :
      (items : List Fields)
      → any (is_compaction py) items ≡ false
      → prune_before_latest_compaction py items ≡ items
  unfolding prune_before_latest_compaction
  prune_without_compaction items h = rw (prune_before_latest_compaction, latest-none items h) refl
