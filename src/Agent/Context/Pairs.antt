-- ===== src/Agent/Context/Pairs.antt =====
-- Tool calls and outputs after `normalize_response_items` of backend/agent/context_manager.py.
use deepdive.Base.{
  ◌≡◌, refl, sym, ap, Bool, true, false, not, ◌&&◌, ◌||◌, Option, none, some, List, [], ◌∷◌, arith,
  keep, All, keep_everything, keep-All, All-keep, any-keep, All-map,
}
use deepdive.Text.{Text, text_eq}
use deepdive.Text.Lemmas.{text_eq_iff}
use deepdive.Json.{Fields, Builtins}
use deepdive.Agent.Context.{
  is_call, is_output, is_call_id, is_replayable, is_paired, is_kept, item_call_id,
  normalize_response_items,
}

same_id :
    (c : Text) (id : Option Text)
    → (elim id [ none ↦ false | some d ↦ text_eq c d ]) ≡ true
    → id ≡ some c
same_id c none h = cc
same_id c (some d) h = ap some (sym ((text_eq_iff c d).0 h))

is_call_id_lem : (c : Text) (item : Fields) → is_call_id c item ≡ true → item_call_id item ≡ some c
unfolding is_call_id
is_call_id_lem c item h = same_id c (item_call_id item) h

module _ (py : Builtins) where
  kept_of_paired :
      (items : List Fields) (item : Fields)
      → is_paired py items (item_call_id item) ≡ true
      → is_kept py items item ≡ true
  unfolding is_kept
  kept_of_paired items item h = ground arith

  -- A call or an output of a paired id is kept.
  kept_of_id :
      (items : List Fields) (c : Text) (kind : Fields → Bool)
      → is_paired py items (some c) ≡ true
      → (item : Fields) → (kind item && is_call_id c item) ≡ true
      → is_kept py items item ≡ true
  kept_of_id items c kind h item e =
      let id : item_call_id item ≡ some c = is_call_id_lem c item (ground arith) in
      kept_of_paired items item (rw id h)

  -- The loop keeps both halves of a pair.
  is_paired-keep :
      (items : List Fields) (id : Option Text)
      → is_paired py items id ≡ true
      → is_paired py (keep (is_kept py items) items) id ≡ true
  unfolding is_paired
  is_paired-keep items none h = h
  is_paired-keep items (some c) h =
      rw
        (
          any-keep (is_kept py items) (λ item. is_call py item && is_call_id c item) items
              (kept_of_id items c (is_call py) h),
          any-keep (is_kept py items) (λ item. is_output py item && is_call_id c item) items
              (kept_of_id items c (is_output py) h),
        )
        h

  -- A call or an output has its other half among the items.
  pub record IsPairedIn (items : List Fields) (item : Fields) : Type 0 where
    pub replayable : is_replayable py item ≡ true
    pub paired :
        (not (is_call py item || is_output py item) || is_paired py items (item_call_id item))
        ≡ true

  paired_of_kept :
      (items : List Fields) (item : Fields)
      → is_replayable py item ≡ true
      → is_kept py items item ≡ true
      → IsPairedIn (keep (is_kept py items) items) item
  unfolding is_kept
  paired_of_kept items item r h = record {
    replayable = r;
    paired = ground (arith, is_paired-keep items (item_call_id item));
  }

  both :
      (items xs : List Fields)
      → All (λ item. is_replayable py item ≡ true) xs
      → All (λ item. is_kept py items item ≡ true) xs
      → All (IsPairedIn (keep (is_kept py items) items)) xs
  both items [] r h = tt
  both items (x ∷ xs) r h = (paired_of_kept items x r.0 h.0, both items xs r.1 h.1)

  -- Of any items, each tool call that is sent to the model has an output among the items that are
  -- sent, each output has a call, both with a call id, and all items are of a kind that may be sent.
  pub normalize_response_items-IsPairedIn :
      (items : List Fields)
      → All (IsPairedIn (normalize_response_items py items)) (normalize_response_items py items)
  unfolding normalize_response_items
  normalize_response_items-IsPairedIn items =
      let replayable = keep (is_replayable py) items in
      both replayable (keep (is_kept py replayable) replayable)
        (All-keep (is_kept py replayable) _ replayable (keep-All (is_replayable py) items))
        (keep-All (is_kept py replayable) replayable)

  kept_of_IsPairedIn :
      (items : List Fields) (item : Fields) → IsPairedIn items item → is_kept py items item ≡ true
  unfolding is_kept
  kept_of_IsPairedIn items item h = ground (arith, h.paired)

  -- Items that are all sendable and paired are sent as they are.
  pub normalize_response_items-fixed :
      (items : List Fields)
      → All (IsPairedIn items) items
      → normalize_response_items py items ≡ items
  unfolding normalize_response_items
  normalize_response_items-fixed items h =
      let same : keep (is_replayable py) items ≡ items =
        keep_everything (is_replayable py) items (All-map _ _ items (λ x p. p.replayable) h) in
      rw
        (
          same,
          keep_everything (is_kept py items) items (All-map _ _ items (kept_of_IsPairedIn items) h),
        )
        refl

  -- To prepare items twice is to prepare them once.
  pub normalize_response_items_idem :
      (items : List Fields)
      → normalize_response_items py (normalize_response_items py items)
        ≡ normalize_response_items py items
  normalize_response_items_idem items =
      normalize_response_items-fixed (normalize_response_items py items)
        (normalize_response_items-IsPairedIn items)
