-- ===== src/Catalogue/Repository/Replaced.antt =====
-- About a replacement of links.
use anime_app_backend.Prelude.{
  ◌≡◌, refl, ◌∙◌, ap, Bool, true, ◌||◌, is_some, Option, none, some, List, [], ◌∷◌, ◌++◌, arith,
  if◌then◌else◌,
}
use anime_app_backend.Prelude.Int.{ℤ}
use anime_app_backend.Prelude.Lists.{any_of}
use anime_app_backend.Prelude.Dict.{find, IsDistinct}
use anime_app_backend.Ingestion.Parsers.{same_int}
use anime_app_backend.Ingestion.Parsers.Links.Firsts.{same_int_eq}
use anime_app_backend.Catalogue.Repository.{
  is_in, is_part, same_set, links_of, changed_links, delete_links, rows_for, link_rows,
  replace_links,
}

append_nil : {A : Type 0} (xs : List A) → xs ++ [] ≡ xs
append_nil [] = refl
append_nil (x ∷ xs) = ap (λ ys. x ∷ ys) (append_nil xs)

same_int_comm : (a b : ℤ) → same_int a b ≡ same_int b a
same_int_comm a b = ground arith

any_of-find :
    {A : Type 0} (a : ℤ) (d : List (ℤ × A))
    → any_of (λ (c : ℤ × A). same_int a c.0) d ≡ is_some (find same_int a d)
unfolding find
any_of-find a [] = refl
any_of-find a ((b, v) ∷ d) = ground (arith, any_of-find a d, same_int_comm a b)

module _ {L : Type 0} (same : L → L → Bool) (same_refl : (a : L) → same a a ≡ true)
    (same_eq : (a b : L) → same a b ≡ true → a ≡ b) where
  links_of-append :
      (id : ℤ) (xs ys : List (ℤ × L))
      → links_of same id (xs ++ ys) ≡ links_of same id xs ++ links_of same id ys
  unfolding links_of
  links_of-append id [] ys = refl
  links_of-append id ((a, l) ∷ xs) ys = ground (arith, links_of-append id xs ys)

  is_in-append :
      (l : L) (xs ys : List L) → is_in same l (xs ++ ys) ≡ (is_in same l xs || is_in same l ys)
  is_in-append l [] ys = refl
  is_in-append l (x ∷ xs) ys = ground (arith, is_in-append l xs ys)

  is_part-is_in :
      (l : L) (xs ys : List L)
      → is_part same xs ys ≡ true
      → is_in same l xs ≡ true
      → is_in same l ys ≡ true
  is_part-is_in l [] ys h k = cc k
  is_part-is_in l (x ∷ xs) ys h k = ground (arith, h, k, is_part-is_in l xs ys, same_eq l x)

  -- Equal sets have the same members.
  same_set-is_in :
      (l : L) (xs ys : List L) → same_set same xs ys ≡ true → is_in same l xs ≡ is_in same l ys
  same_set-is_in l xs ys h = ground (arith, h, is_part-is_in l xs ys, is_part-is_in l ys xs)

  links_of-rows_for :
      (id a : ℤ) (links : List L)
      → links_of same id (rows_for same a links) ≡ (if same_int a id then links else [])
  unfolding links_of
  links_of-rows_for id a [] = ground arith
  links_of-rows_for id a (l ∷ links) = ground (arith, links_of-rows_for id a links)

  -- The links of an anime in a dict of links.
  abbrev pub links_at : Option (List L) → List L
  links_at none = []
  links_at (some links) = links

  links_of-delete_links :
      (id : ℤ) (changed : List (ℤ × List L)) (table : List (ℤ × L))
      → links_of same id (delete_links same changed table)
        ≡ (if is_some (find same_int id changed) then [] else links_of same id table)
  unfolding links_of delete_links
  links_of-delete_links id changed [] = ground arith
  links_of-delete_links id changed ((a, l) ∷ table) =
      ground
        (arith, links_of-delete_links id changed table, any_of-find a changed, same_int_eq a id)

  links_of-link_rows :
      (id : ℤ) (changed : List (ℤ × List L))
      → IsDistinct same_int changed
      → links_of same id (link_rows same changed) ≡ links_at (find same_int id changed)
  unfolding link_rows links_of find
  links_of-link_rows id [] h = refl
  links_of-link_rows id ((a, links) ∷ changed) h =
      links_of-append id (rows_for same a links) (link_rows same changed)
      ∙ ground (
        arith,
        links_of-rows_for id a links,
        links_of-link_rows id changed h.1,
        h.0,
        same_int_eq a id,
        append_nil links,
      )

  find-changed_links :
      (id : ℤ) (wanted : List (ℤ × List L)) (table : List (ℤ × L))
      → IsDistinct same_int wanted
      → find same_int id (changed_links same wanted table) ≡ (elim (find same_int id wanted) [
        | none ↦ none
        | some links ↦ (if same_set same (links_of same id table) links then none else some links)
      ])
  unfolding changed_links find
  find-changed_links id [] table h = refl
  find-changed_links id ((a, links) ∷ wanted) table h =
      ground (arith, find-changed_links id wanted table h.1, h.0, same_int_eq a id)

  changed_links-IsDistinct :
      (wanted : List (ℤ × List L)) (table : List (ℤ × L))
      → IsDistinct same_int wanted
      → IsDistinct same_int (changed_links same wanted table)
  unfolding changed_links
  changed_links-IsDistinct [] table h = tt
  changed_links-IsDistinct ((a, links) ∷ wanted) table h =
      ground (
        arith,
        changed_links-IsDistinct wanted table h.1,
        find-changed_links a wanted table h.1,
        h.0,
      )

  settled :
      (l : L) (current : List L) (w : Option (List L))
      → (let f : Option (List L) = elim w [
        | none ↦ none
        | some links ↦ (if same_set same current links then none else some links)
      ] in
          (is_in same l (if is_some f then [] else current) || is_in same l (links_at f)))
        ≡ (elim w [ none ↦ is_in same l current | some links ↦ is_in same l links ])
  settled l current none = ground arith
  settled l current (some links) = ground (arith, same_set-is_in l current links)

  -- The links that an anime is to have: those of the dict, or those it has.
  abbrev pub is_wanted : ℤ → L → List (ℤ × List L) → List (ℤ × L) → Bool
  is_wanted id l wanted table = elim (find same_int id wanted) [
    | none ↦ is_in same l (links_of same id table)
    | some links ↦ is_in same l links
  ]

  -- After a replacement with a dict, which has no key twice, an anime of the dict has exactly the
  -- links that the dict gives it, and every other anime the links that it had.
  pub replace_links-Replaces :
      (wanted : List (ℤ × List L)) (table : List (ℤ × L))
      → IsDistinct same_int wanted
      → (id : ℤ) (l : L)
      → is_in same l (links_of same id (replace_links same wanted table).1)
        ≡ is_wanted id l wanted table
  unfolding replace_links
  replace_links-Replaces wanted table distinct id l =
      let changed = changed_links same wanted table in
      ap (is_in same l)
        (links_of-append id (delete_links same changed table) (link_rows same changed))
      ∙ is_in-append l (links_of same id (delete_links same changed table))
          (links_of same id (link_rows same changed))
      ∙ ground (
        arith,
        links_of-delete_links id changed table,
        links_of-link_rows id changed (changed_links-IsDistinct wanted table distinct),
        find-changed_links id wanted table distinct,
        settled l (links_of same id table) (find same_int id wanted),
      )
