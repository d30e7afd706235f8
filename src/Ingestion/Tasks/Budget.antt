-- ===== src/Ingestion/Tasks/Budget.antt =====
-- How many more attempts the tasks of a table can take: marking a claimed task lowers the number.
use Prim.Native.Char.{Char}
use anime_app_backend.Prelude.{
  ℕ, ◌+◌, ◌-◌, ◌<◌, ◌≡◌, refl, sym, Bool, true, false, some, List, [], ◌∷◌, arith, inl, inr,
  if◌then◌else◌, subst,
}
use anime_app_backend.Prelude.Lists.{any_of}
use anime_app_backend.Ingestion.Enums.{Key, same_key, same_key_refl}
use anime_app_backend.Ingestion.Tasks.{
  Task, has_key, update_where, is_open, claim_next, mark_done, mark_gone, mark_dead, mark_failed,
}
use anime_app_backend.Ingestion.Tasks.Sound.{Unique, IsTable}
use anime_app_backend.Ingestion.Tasks.Claim.{
  Among, key-ne_of_Among, claim_next-IsClaimed, claim_next-Among,
}

-- The attempts that a task has left; a task that is done, dead or gone takes none.
abbrev pub attempts_left : Task → ℕ
attempts_left t = if is_open t.status then 3 - t.attempts else 0

abbrev pub budget : List Task → ℕ
budget [] = 0
budget (t ∷ ts) = attempts_left t + budget ts

update-no_match :
    (key : Key) (f : Task → Task) (ts : List Task)
    → any_of (has_key key) ts ≡ false
    → update_where (has_key key) f ts ≡ ts
update-no_match key f [] h = refl
update-no_match key f (t ∷ ts) h = ground (arith, update-no_match key f ts)

-- The sum of a number that each task has.
abbrev pub total : (Task → ℕ) → List Task → ℕ
total size [] = 0
total size (t ∷ ts) = size t + total size ts

pub total-update :
    (size : Task → ℕ) (task : Task) (f : Task → Task) (ts : List Task)
    → Unique ts
    → Among task ts
    → total size (update_where (has_key task.key) f ts) + size task ≡ total size ts + size (f task)
total-update size task f [] u m = elim m [ ]
total-update size task f (t ∷ ts) u (inl e) =
    subst
      (λ (x : Task).
        total size (update_where (has_key x.key) f (t ∷ ts)) + size x
        ≡ total size (t ∷ ts) + size (f x))
      (sym e) (rw (same_key_refl t.key, update-no_match t.key f ts u.0) (omega arith))
total-update size task f (t ∷ ts) u (inr m) =
    let ih = total-update size task f ts u.1 m in
    let other : same_key t.key task.key ≡ false = key-ne_of_Among t task ts u.0 m in
    rw other (omega arith)

budget-update :
    (task : Task) (f : Task → Task) (ts : List Task)
    → Unique ts
    → Among task ts
    → budget (update_where (has_key task.key) f ts) + attempts_left task
      ≡ budget ts + attempts_left (f task)
budget-update task f [] u m = elim m [ ]
budget-update task f (t ∷ ts) u (inl e) =
    subst
      (λ (x : Task).
        budget (update_where (has_key x.key) f (t ∷ ts)) + attempts_left x
        ≡ budget (t ∷ ts) + attempts_left (f x))
      (sym e) (rw (same_key_refl t.key, update-no_match t.key f ts u.0) (omega arith))
budget-update task f (t ∷ ts) u (inr m) =
    let ih = budget-update task f ts u.1 m in
    let other : same_key t.key task.key ≡ false = key-ne_of_Among t task ts u.0 m in
    rw other (omega arith)

module _ (locked : Key → Bool) (now : ℕ) (ts : List Task) {task : Task} (h : IsTable ts)
    (claimed : claim_next locked now ts ≡ some task) where
  marking-lt :
      (f : Task → Task)
      → attempts_left (f task) < attempts_left task
      → budget (update_where (has_key task.key) f ts) < budget ts
  marking-lt f less =
      omega (arith, budget-update task f ts h.unique (claim_next-Among locked now ts claimed))

  some_left : (is_open task.status ≡ true) × (task.attempts < 3)
  some_left =
      let c = claim_next-IsClaimed locked now ts h claimed in
      (c.open_status, ground (arith, c.open_status, c.sound.fits))

  pub mark_done-lt : budget (mark_done task ts) < budget ts
  unfolding mark_done
  mark_done-lt = marking-lt _ (ground (arith, some_left))

  pub mark_gone-lt : budget (mark_gone task ts) < budget ts
  unfolding mark_gone
  mark_gone-lt = marking-lt _ (ground (arith, some_left))

  pub mark_dead-lt : (error : List Char) → budget (mark_dead task error ts) < budget ts
  unfolding mark_dead
  mark_dead-lt error = marking-lt _ (ground (arith, some_left))

  pub mark_failed-lt :
      (at : ℕ) (error : List Char) → budget (mark_failed at task error ts) < budget ts
  unfolding mark_failed
  mark_failed-lt at error = marking-lt _ (ground (arith, some_left))
