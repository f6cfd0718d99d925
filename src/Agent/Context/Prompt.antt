-- ===== src/Agent/Context/Prompt.antt =====
-- `AgentContextManager.for_prompt` of backend/agent/context_manager.py.
use deepdive.Base.{
  ◌≡◌, refl, not, Option, none, some, true, List, [], ◌∷◌, keep, All, keep-All, All-keep,
}
use deepdive.Text.{Text, member}
use deepdive.Json.{Fields, Builtins}
use deepdive.Agent.Context.{
  item_call_id, for_prompt, is_not_excluded, is_replayable, is_kept, normalize_response_items,
}
use deepdive.Agent.Context.Pairs.{IsPairedIn, normalize_response_items-IsPairedIn}

not_excluded : (id : Option Text) → (elim id [ none ↦ true | some c ↦ not (member c []) ]) ≡ true
unfolding member
not_excluded none = refl
not_excluded (some c) = refl

none_excluded : (xs : List Fields) → All (λ item. is_not_excluded [] item ≡ true) xs
unfolding is_not_excluded
none_excluded [] = tt
none_excluded (x ∷ xs) = (not_excluded (item_call_id x), none_excluded xs)

module _ (py : Builtins) where
  All-normalize {κ} :
      (P : Fields → Type κ) (items : List Fields)
      → All P items
      → All P (normalize_response_items py items)
  unfolding normalize_response_items
  All-normalize P items h =
      All-keep (is_kept py (keep (is_replayable py) items)) P (keep (is_replayable py) items)
        (All-keep (is_replayable py) P items h)

  -- Whatever was stored, a prompt has no item with an excluded call id, and each tool call in it has
  -- its output and each output its call.
  pub for_prompt-IsPairedIn :
      (rows extra_items : List Fields) (exclude_call_ids : List Text)
      → All
          (λ item. is_not_excluded exclude_call_ids item ≡ true)
          (for_prompt py rows extra_items exclude_call_ids)
        × All
            (IsPairedIn py (for_prompt py rows extra_items exclude_call_ids))
            (for_prompt py rows extra_items exclude_call_ids)
  unfolding for_prompt
  for_prompt-IsPairedIn rows extra_items [] =
      (none_excluded _, normalize_response_items-IsPairedIn py _)
  for_prompt-IsPairedIn rows extra_items (c ∷ excluded) = (
    All-normalize _ _ (keep-All (is_not_excluded (c ∷ excluded)) _),
    normalize_response_items-IsPairedIn py _,
  )
