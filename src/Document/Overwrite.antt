-- ===== src/Document/Overwrite.antt =====
-- What `update` of backend/document/service.py writes for a document with sections when it is called
-- without sections: `_merged_sections` and `_render_document_content`.
use deepdive.Base.{
  ℕ, ◌≡◌, ◌≢◌, refl, sym, ap, ◌∙◌, false, List, [], ◌∷◌, map, none, arith, Option-cases,
  sorted-nonempty, inl, inr,
}
use deepdive.Text.{Text}
use deepdive.Json.{Builtins}
use deepdive.Document.Model.{
  Document, Section, SectionText, ok, World, Platform, M, ◌>>=◌, or_raise, version_conflict,
}
use deepdive.Document.Repository.{list_sections}
use deepdive.Document.Sections.{
  normalize_sections, merged_sections, merge_section, merge_all, text_before,
  render_document_content,
}
use deepdive.Document.Results.{DocumentResult}
use deepdive.Document.Actions.{Call, replay_result, document_result_with_related}
use deepdive.Document.Revise.{text_of, existing_texts, write_update, update_new, update}
use deepdive.Document.Gate.{refusal, gated, gated_refused, gated_open, refusal-none}
use deepdive.Document.History.Changes.{update_open}

merge_section-full : (s : SectionText) (ts : List SectionText) → merge_section s ts ≢ []
unfolding merge_section
merge_section-full s [] e = ground arith
merge_section-full s (t ∷ ts) e = ground arith

merge_all-full : (ss ts : List SectionText) → ts ≢ [] → merge_all ss ts ≢ []
merge_all-full [] ts h = h
merge_all-full (s ∷ ss) ts h = merge_all-full ss (merge_section s ts) (merge_section-full s ts)

-- Merging keeps a section where there was one.
merged_sections-full : (s : SectionText) (ss : List SectionText) → merged_sections (s ∷ ss) [] ≢ []
unfolding merged_sections
merged_sections-full s ss =
    sorted-nonempty text_before (merge_all ss (merge_section s []))
      (merge_all-full ss (merge_section s []) (merge_section-full s []))

module _ (os : Platform) where
  abbrev unread : List Section → List SectionText
  unread rows = map (λ s. text_of s []) rows

  existing_texts-unread :
      (rows : List Section) (w : World) → existing_texts os false rows w ≡ (ok (unread rows), w)
  unfolding existing_texts ◌>>=◌
  existing_texts-unread [] w = refl
  existing_texts-unread (s ∷ rest) w = rw (existing_texts-unread rest w) refl

  write_update-ignores :
      (call : Call) (d : Document) (k v : ℕ) (c₁ c₂ : Text) (merged : List SectionText)
      (rows : List Section)
      → merged ≢ []
      → write_update os call d k v c₁ [] merged rows ≡ write_update os call d k v c₂ [] merged rows
  unfolding write_update render_document_content
  write_update-ignores call d k v c₁ c₂ [] rows h = absurd (h refl)
  write_update-ignores call d k v c₁ c₂ (m ∷ merged) rows h = refl

  module _ (py : Builtins) (call : Call) (k v : ℕ) (d : Document) (w : World) (s : Section)
      (rest : List Section) (stored : list_sections k w.repository ≡ s ∷ rest) where
    bind_unread :
        {A : Type 0} (f : List SectionText → M A)
        → (existing_texts os false (list_sections k w.repository) >>= f) w
          ≡ f (text_of s [] ∷ unread rest) w
    unfolding ◌>>=◌
    bind_unread f = rw (stored, existing_texts-unread (s ∷ rest) w) refl

    update_open-ignores :
        (c₁ c₂ : Text)
        → update_open os py call k v c₁ none d w ≡ update_open os py call k v c₂ none d w
    unfolding ◌>>=◌ normalize_sections
    update_open-ignores c₁ c₂ =
        bind_unread _
        ∙ ap
            (λ m.
              (m >>= λ updated.
              or_raise updated version_conflict >>= λ d'. document_result_with_related os d' false)
                w)
            (write_update-ignores call d k v c₁ c₂ _ _ (merged_sections-full _ _))
        ∙ sym (bind_unread _)

  gated-ignores :
      (a k v : ℕ) (f g : Document → M DocumentResult) (w : World)
      → ((d : Document) → f d w ≡ g d w)
      → gated a k v f w ≡ gated a k v g w
  gated-ignores a k v f g w h = elim (Option-cases (refusal a k v w)) [
    | inl open_ ↦
        let (d, found, own, draft_, current) = refusal-none a k v w open_ in
        gated_open a k v f w d found own draft_ current
        ∙ h d
        ∙ sym (gated_open a k v g w d found own draft_ current)
    | inr (e, shut) ↦ gated_refused a k v f w e shut ∙ sym (gated_refused a k v g w e shut)
  ]

  -- Where a document has sections, `update` without sections comes to the same result and the same
  -- state whatever the new content is: the content that is passed is not written.
  pub update_ignores_content :
      (py : Builtins) (call : Call) (k v : ℕ) (w : World) (s : Section) (rest : List Section)
      → list_sections k w.repository ≡ s ∷ rest
      → (c₁ c₂ : Text) → update py os call k v c₁ none w ≡ update py os call k v c₂ none w
  unfolding update update_new ◌>>=◌
  update_ignores_content py call k v w s rest stored c₁ c₂ =
      elim (Option-cases (replay_result call.tool_call_id w)) [
        | inl fresh ↦ rw fresh (
            gated-ignores call.analysis_id k v (update_open os py call k v c₁ none)
              (update_open os py call k v c₂ none) w
              λ d. update_open-ignores py call k v d w s rest stored c₁ c₂)
        | inr (result, known) ↦ rw known refl
      ]
