-- ===== src/Ingestion/Clean/Batch/Saves.antt =====
-- About what a batch saves.
use anime_app_backend.Prelude.{
  ℕ, ◌≡◌, refl, sym, ◌∙◌, subst, Option, none, some, List, [], ◌∷◌, arith,
}
use anime_app_backend.Prelude.Lists.{length}
use anime_app_backend.Exec.{ok, err, recover, continue}
use anime_app_backend.Exec.Post.{any-Post, Post, Post-mono, continue-Post, recover-Post}
use anime_app_backend.Ingestion.Enums.{Key}
use anime_app_backend.Ingestion.Errors.{Exc}
use anime_app_backend.Ingestion.Raw.{RawRow, get_batch}
use anime_app_backend.Ingestion.Clean.{
  tick, State, Outside, RawDoc, Counts, read, commit, rollback, load_payloads,
}
use anime_app_backend.Ingestion.Clean.Collect.{no_counts}
use anime_app_backend.Ingestion.Clean.Batch.{
  clean_rows, roll_back, clean_batch, clean_anime, committed, write_batch, answer, clean_docs,
  last_key,
}
use anime_app_backend.Ingestion.Clean.Batch.Progress.{cursor_of}
use anime_app_backend.Ingestion.Clean.Batch.Held.{
  Holds, Holds-refl, Holds-tick, Holds-trans, clean_rows-Held, load_payloads-Held,
}

module _ {D M : Type 0} (out : Outside D M) where
  -- A commit keeps what the session sees, and so does a failed one of what is saved.
  commit-Post :
      (w : State D M)
      → Post
          (λ _ w'.
            (w'.saved ≡ w'.seen)
            × (w'.tags ≡ w.tags)
            × (w'.studios ≡ w.studios)
            × (w'.index ≡ w.index))
          (λ _ w'. Holds w w')
          (commit out w)
  unfolding commit
  commit-Post w = ground arith

  roll_back-Post :
      (e : Exc) (w : State D M) → Post (λ _ _. ⊥) (λ _ w'. Holds w w') (roll_back out e w)
  unfolding roll_back rollback
  roll_back-Post e w = ground arith

  -- What a batch leaves: everything that it wrote is saved, and nothing if there was nothing to read.
  abbrev pub IsSaved : State D M → Option Key → State D M → Type 0
  IsSaved w none w' = Holds w w' × (w'.seen ≡ w.seen)
  IsSaved w (some key) w' = (w'.saved ≡ w'.seen) × (w'.index ≡ w.index)

  -- The `try`: what was written is committed, or nothing is saved.
  Wrote : State D M → State D M → Type 0
  Wrote w w' = (w'.saved ≡ w'.seen) × (w'.index ≡ w.index)

  write_batch-Wrote :
      (counts : Counts) (docs : List RawDoc) (w : State D M)
      → Post (λ _ w'. Wrote w w') (λ _ w'. Holds w w') (write_batch out counts docs w)
  unfolding Wrote
  write_batch-Wrote counts docs w =
      continue-Post (λ _ w₁. Holds w w₁) _ _ (clean_rows out docs counts w) (committed out)
        (clean_rows-Held out docs counts w)
        (λ written w₁ h.
          continue-Post (λ _ w₂. Wrote w w₂) _ _ (commit out w₁) (λ _ w₂. (ok written, w₂))
            (Post-mono _ _ _ _ (commit out w₁) (commit-Post w₁) (λ _ w₂ c. (c.0, c.3 ∙ h.index))
              (λ _ w₂ k. Holds-trans {w₁ = w₁} h k))
            (λ _ w₂ c. c))

  clean_docs-Saves :
      (key : Key) (counts : Counts) (docs : List RawDoc) (w : State D M)
      → Post
          (λ r w'. (r.0 ≡ some key) × Wrote w w')
          (λ _ w'. Holds w w')
          (clean_docs out key counts docs w)
  unfolding Wrote
  clean_docs-Saves key counts docs w =
      continue-Post (λ _ w₁. Wrote w w₁) _ _
        (recover (write_batch out counts docs w) (roll_back out)) (answer out key)
        (recover-Post (λ _ w₁. Wrote w w₁) (λ _ w₁. Holds w w₁) _ (write_batch out counts docs w)
          (roll_back out) (write_batch-Wrote counts docs w)
          (λ e w₁ h.
            Post-mono (λ _ _. ⊥) _ (λ _ w₂. Holds w₁ w₂) _ (roll_back out e w₁)
              (roll_back-Post e w₁) (λ _ _ never. absurd never)
              (λ _ w₂ k. Holds-trans {w₁ = w₁} h k)))
        (λ written w₁ c. (refl, c))

  since_tick : (w w' : State D M) (o : Option Key) → IsSaved (tick w) o w' → IsSaved w o w'
  since_tick w w' none s = (Holds-trans {w₁ = tick w} (Holds-tick w) s.0, s.1)
  since_tick w w' (some key) s = s

  clean_batch-Saves :
      (rows : List RawRow) (w : State D M)
      → Post (λ r w'. IsSaved w r.0 w') (λ _ w'. Holds w w') (clean_batch out rows w)
  unfolding clean_batch Wrote
  clean_batch-Saves [] w = (Holds-refl w, refl)
  clean_batch-Saves (row ∷ rows) w =
      continue-Post (λ _ w₁. Holds w w₁) _ _ (load_payloads out (row ∷ rows) w)
        (clean_docs out (last_key row rows) (record no_counts { rows_read = length (row ∷ rows) }))
        (load_payloads-Held out (row ∷ rows) w)
        (λ docs w₁ h.
          let counts = record no_counts { rows_read = length (row ∷ rows) } in
          Post-mono (λ r w₂. (r.0 ≡ some (last_key row rows)) × Wrote w₁ w₂) _ (λ _ w₂. Holds w₁ w₂)
            _ (clean_docs out (last_key row rows) counts docs w₁)
            (clean_docs-Saves (last_key row rows) counts docs w₁)
            (λ r w₂ c. subst (λ o. IsSaved w o w₂) (sym c.0) (c.1.0, c.1.1 ∙ h.index))
            (λ _ w₂ k. Holds-trans {w₁ = w₁} h k))

  pub clean_batch-Cursor :
      (rows : List RawRow) (w : State D M)
      → Post (λ r _. r.0 ≡ cursor_of rows) (λ _ _. Unit {0}) (clean_batch out rows w)
  unfolding clean_batch
  clean_batch-Cursor [] w = refl
  clean_batch-Cursor (row ∷ rows) w =
      continue-Post (λ _ _. Unit {0}) _ _ (load_payloads out (row ∷ rows) w)
        (clean_docs out (last_key row rows) (record no_counts { rows_read = length (row ∷ rows) }))
        (any-Post (load_payloads out (row ∷ rows) w))
        (λ docs w₁ _.
          let counts = record no_counts { rows_read = length (row ∷ rows) } in
          Post-mono (λ r w₂. (r.0 ≡ some (last_key row rows)) × Wrote w₁ w₂) _ (λ _ w₂. Holds w₁ w₂)
            _ (clean_docs out (last_key row rows) counts docs w₁)
            (clean_docs-Saves (last_key row rows) counts docs w₁) (λ _ _ c. c.0) (λ _ _ _. tt))

  -- A batch is all or nothing. If `_clean_anime` returns a cursor, everything that its session
  -- sees is saved; if it returns none, nothing was changed; and if it raises, whatever fails, what
  -- is saved and the shared dicts of names are as before. The index rows never change.
  pub clean_anime-Saves :
      (after : Option Key) (since : Option ℕ) (batch_size : ℕ) (w : State D M)
      → Post
          (λ r w'. IsSaved w r.0 w')
          (λ _ w'. Holds w w')
          (clean_anime out after since batch_size w)
  unfolding clean_anime read
  clean_anime-Saves after since batch_size w = by_read (out.fails w.step)
    where
      by_read :
          (o : Option Exc)
          → Post
              (λ r w'. IsSaved w r.0 w')
              (λ _ w'. Holds w w')
              (continue
                (elim o [
                  | some e ↦ (err e, tick w)
                  | none ↦ (ok (get_batch since after batch_size w.index), tick w)
                ])
                (clean_batch out))
      by_read (some e) = Holds-tick w
      by_read none =
          let rows = get_batch since after batch_size w.index in
          Post-mono (λ r w'. IsSaved (tick w) r.0 w') _ (λ _ w'. Holds (tick w) w') _
            (clean_batch out rows (tick w)) (clean_batch-Saves rows (tick w))
            (λ r w' s. since_tick w w' r.0 s) (λ _ w' h. Holds-trans {w₁ = tick w} (Holds-tick w) h)
