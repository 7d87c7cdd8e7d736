-- ===== src/Policy/Unique.antt =====
-- Sorting and removal of duplicates (`sortedUnique`, `sort` of
-- packages/policy/src/declarative-policy.ts) keep the members of a list.
use cesspace_arc.Base.{
  ◌≡◌, refl, sym, ap, ◌∙◌, inl, inr, Bool, true, ◌||◌, List, [], ◌∷◌, Text, text_eq, text_eq_iff,
  has, any, Bool-cases, arith,
}
use mathlib.Core.List.{Permᴰ}
use mathlib.Core.List.Permᴰ
use cesspace_arc.Policy.Order.{compare_strings, is_before}
use cesspace_arc.Policy.Normal.{insert_by_key, sort_by_key, unique_from, sorted_unique}

module _ {A : Type 0} (key : A → Text) where
  insert_by_key-Perm : (a : A) (l : List A) → Permᴰ (insert_by_key key a l) (a ∷ l)
  unfolding insert_by_key
  insert_by_key-Perm a [] = Permᴰ.refl (a ∷ [])
  insert_by_key-Perm a (b ∷ l) = elim (Bool-cases (is_before (compare_strings (key b) (key a)))) [
    | inl first ↦
        rw first (Permᴰ.trans (Permᴰ.cons refl (insert_by_key-Perm a l)) (Permᴰ.swap refl refl))
    | inr here ↦ rw here (Permᴰ.refl (a ∷ b ∷ l))
  ]

  -- Sorting permutes.
  pub sort_by_key-Perm : (l : List A) → Permᴰ (sort_by_key key l) l
  unfolding sort_by_key
  sort_by_key-Perm [] = Permᴰ.nil
  sort_by_key-Perm (a ∷ l) =
      Permᴰ.trans (insert_by_key-Perm a (sort_by_key key l)) (Permᴰ.cons refl (sort_by_key-Perm l))

any-Perm : {A : Type 0} (f : A → Bool) {l l' : List A} → Permᴰ l l' → any f l ≡ any f l'
any-Perm f Permᴰ.nil = refl
any-Perm f (Permᴰ.cons {a} {b} e p) = ground (arith, any-Perm f p, ap f e)
any-Perm f (Permᴰ.swap {a} {b} e e') = ground (arith, ap f e, ap f e')
any-Perm f (Permᴰ.trans p q) = any-Perm f p ∙ any-Perm f q

module _ (f : Text → Bool) where
  seen-any : (v : Text) (seen : List Text) → has v seen ≡ true → f v ≡ true → any f seen ≡ true
  unfolding has
  seen-any v [] h p = absurd (cc)
  seen-any v (x ∷ seen) h p = elim (Bool-cases (text_eq x v)) [
    | inl same ↦ rw ((text_eq_iff x v).0 same, p)
    | inr other ↦ ground (arith, seen-any v seen)
  ]

  any-unique_from :
      (seen l : List Text) → (any f (unique_from seen l) || any f seen) ≡ (any f l || any f seen)
  unfolding unique_from
  any-unique_from seen [] = refl
  any-unique_from seen (v ∷ l) = elim (Bool-cases (has v seen)) [
    | inl old ↦ rw old (ground (arith, any-unique_from seen l, seen-any v seen old))
    | inr fresh ↦ rw fresh (ground (arith, any-unique_from (v ∷ seen) l))
  ]

  pub any-sorted_unique : (l : List Text) → any f (sorted_unique l) ≡ any f l
  unfolding sorted_unique
  any-sorted_unique l =
      any-Perm f (sort_by_key-Perm (λ v. v) (unique_from [] l))
      ∙ ground (arith, any-unique_from [] l)

has-eq-any : (x : Text) (l : List Text) → has x l ≡ any (λ y. text_eq y x) l
unfolding has
has-eq-any x [] = refl
has-eq-any x (y ∷ l) = ap (λ b. text_eq y x || b) (has-eq-any x l)

pub has-sorted_unique : (x : Text) (l : List Text) → has x (sorted_unique l) ≡ has x l
has-sorted_unique x l =
    has-eq-any x (sorted_unique l) ∙ any-sorted_unique (λ y. text_eq y x) l ∙ sym (has-eq-any x l)
