-- ===== src/Ingestion/Clean/Batch/Held.antt =====
-- About what the parts of a batch leave alone until it is committed.
use anime_app_backend.Prelude.{
  ℕ, ◌≡◌, refl, ◌∙◌, true, false, Option, none, some, List, [], ◌∷◌, arith,
}
use anime_app_backend.Exec.{Result, ok, err, continue}
use anime_app_backend.Exec.Post.{Post, Post-mono}
use anime_app_backend.Catalogue.Repository.{Tables}
use anime_app_backend.Ingestion.Errors.{Exc}
use anime_app_backend.Ingestion.Raw.{RawRow}
use anime_app_backend.Ingestion.Clean.{
  tick, State, Outside, RawDoc, Counts, Job, read, write, load, load_payloads,
}
use anime_app_backend.Ingestion.Clean.Collect.{
  Learned, Collected, Others, no_others, only_details, take_all,
}
use anime_app_backend.Ingestion.Clean.Batch.{
  unless_empty, write_details, clean_details, present_of, write_others, clean_others, clean_rows,
  with_others,
}

-- What is saved, and the shared dicts, are as before.
pub record Holds {D M : Type 0} (w w' : State D M) : Type 0 where
  pub saved : w'.saved ≡ w.saved
  pub tags : w'.tags ≡ w.tags
  pub studios : w'.studios ≡ w.studios
  pub index : w'.index ≡ w.index

pub Holds-refl : {D M : Type 0} (w : State D M) → Holds w w
Holds-refl w = record { saved = refl; tags = refl; studios = refl; index = refl }

pub Holds-tick : {D M : Type 0} (w : State D M) → Holds w (tick w)
Holds-tick w = record { saved = refl; tags = refl; studios = refl; index = refl }

pub Holds-trans : {D M : Type 0} {w w₁ w₂ : State D M} → Holds w w₁ → Holds w₁ w₂ → Holds w w₂
Holds-trans a b = record {
  saved = b.saved ∙ a.saved;
  tags = b.tags ∙ a.tags;
  studios = b.studios ∙ a.studios;
  index = b.index ∙ a.index;
}

abbrev pub Held : {D M A : Type 0} → State D M → Result Exc A × State D M → Type 0
Held w end = Post (λ _ w'. Holds w w') (λ _ w'. Holds w w') end

continue-Held :
    {D M A B : Type 0} (w : State D M) (end : Result Exc A × State D M) (rest : A → Job D M B)
    → Held w end
    → ((a : A) (w₁ : State D M) → Held w₁ (rest a w₁))
    → Held w (continue end rest)
continue-Held w (ok a, w₁) rest h k =
    Post-mono (λ _ w'. Holds w₁ w') (λ _ w'. Holds w w') (λ _ w'. Holds w₁ w') (λ _ w'. Holds w w')
      (rest a w₁) (k a w₁) (λ _ w' s. Holds-trans {w₁ = w₁} h s)
      (λ _ w' s. Holds-trans {w₁ = w₁} h s)
continue-Held w (err e, w₁) rest h k = h

module _ {D M : Type 0} (out : Outside D M) where
  write-Held : (f : Tables D M → Option (ℕ × Tables D M)) (w : State D M) → Held w (write out f w)
  unfolding write
  write-Held f w = ground arith

  read-Held : {A : Type 0} (f : State D M → A) (w : State D M) → Held w (read out f w)
  unfolding read
  read-Held f w = ground arith

  load-Held : (row : RawRow) (w : State D M) → Held w (load out row w)
  unfolding load
  load-Held row w = ground arith

  pub load_payloads-Held : (rows : List RawRow) (w : State D M) → Held w (load_payloads out rows w)
  unfolding load_payloads
  load_payloads-Held [] w = Holds-refl w
  load_payloads-Held (row ∷ rows) w =
      continue-Held w (load out row w) _ (load-Held row w) (λ doc w₁.
        continue-Held w₁ (load_payloads out rows w₁) _ (load_payloads-Held rows w₁)
          (λ docs w₂. Holds-refl w₂))

  optional-Held :
      {A : Type 0} (rows : List A) (f : Tables D M → Option (ℕ × Tables D M)) (w : State D M)
      → Held w (unless_empty rows (write out f) w)
  optional-Held [] f w = Holds-refl w
  optional-Held (a ∷ rows) f w = write-Held f w

  write_details-Held :
      (counts : Counts) (c : Option (Collected D M)) (w : State D M)
      → Held w (write_details out counts c w)
  unfolding write_details
  write_details-Held counts none w = Holds-refl w
  write_details-Held counts (some c) w =
      continue-Held w (unless_empty c.animes (write out _) w) _ (optional-Held c.animes _ w)
        (λ _ w₁.
          continue-Held w₁ (unless_empty c.new_tags (write out _) w₁) _
            (optional-Held c.new_tags _ w₁)
            (λ _ w₂.
              continue-Held w₂ (unless_empty c.new_studios (write out _) w₂) _
                (optional-Held c.new_studios _ w₂)
                (λ _ w₃.
                  continue-Held w₃ (unless_empty c.tag_ids (write out _) w₃) _
                    (optional-Held c.tag_ids _ w₃)
                    (λ _ w₄.
                      continue-Held w₄ (unless_empty c.studio_ids (write out _) w₄) _
                        (optional-Held c.studio_ids _ w₄)
                        (λ _ w₅.
                          continue-Held w₅ (unless_empty c.relations (write out _) w₅) _
                            (optional-Held c.relations _ w₅) (λ _ w₆. Holds-refl w₆))))))

  write_others-Held :
      (counts : Counts) (o : Others D M) (w : State D M) → Held w (write_others out counts o w)
  unfolding write_others
  write_others-Held counts o w =
      continue-Held w (unless_empty o.statistics (write out _) w) _ (optional-Held o.statistics _ w)
        (λ _ w₁.
          continue-Held w₁ (unless_empty o.episodes (write out _) w₁) _
            (optional-Held o.episodes _ w₁)
            (λ _ w₂.
              continue-Held w₂ (unless_empty o.reviews (write out _) w₂) _
                (optional-Held o.reviews _ w₂) (λ _ w₃. Holds-refl w₃)))

  present_of-Held : (docs : List RawDoc) (w : State D M) → Held w (present_of out docs w)
  present_of-Held [] w = Holds-refl w
  present_of-Held (doc ∷ docs) w = read-Held _ w

  clean_others-Held :
      (docs : List RawDoc) (counts : Counts) (w : State D M)
      → Held w (clean_others out docs counts w)
  unfolding clean_others
  clean_others-Held docs counts w =
      continue-Held w (present_of out docs w)
        (λ present. write_others out counts (take_all out present docs (no_others out)))
        (present_of-Held docs w)
        (λ present w₁. write_others-Held counts (take_all out present docs (no_others out)) w₁)

  with_others-Held :
      (docs : List RawDoc) (written : Counts × Learned) (w : State D M)
      → Held w (with_others out docs written w)
  with_others-Held docs written w =
      continue-Held w (clean_others out docs written.0 w)
        (λ counts w'. (ok (counts, written.1), w')) (clean_others-Held docs written.0 w)
        (λ counts w₁. Holds-refl w₁)

  clean_details-Held :
      (docs : List RawDoc) (counts : Counts) (w : State D M)
      → Held w (clean_details out docs counts w)
  unfolding clean_details
  clean_details-Held docs counts w = write_details-Held counts _ w

  pub clean_rows-Held :
      (docs : List RawDoc) (counts : Counts) (w : State D M) → Held w (clean_rows out docs counts w)
  unfolding clean_rows
  clean_rows-Held docs counts w =
      continue-Held w (clean_details out (only_details true docs) counts w)
        (with_others out (only_details false docs))
        (clean_details-Held (only_details true docs) counts w)
        (λ written w₁. with_others-Held (only_details false docs) written w₁)
