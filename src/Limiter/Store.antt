-- ===== src/Limiter/Store.antt =====
-- A store of objects that are named by their position.
use cesspace_arc.Base.{
  ℕ, zero, suc, ◌<◌, ◌≡◌, ◌≢◌, ◌⊎◌, inl, inr, refl, none, some, List, [], ◌∷◌, ◌++◌, length,
  get_elem?, ◌==◌, if◌then◌else◌, arith,
}

module _ {A : Type 0} where
  -- A write to the object at a position.
  abbrev pub update : ℕ → (A → A) → List A → List A
  update n f [] = []
  update zero f (x ∷ xs) = f x ∷ xs
  update (suc n) f (x ∷ xs) = x ∷ update n f xs

  pub length-update : (n : ℕ) (f : A → A) (l : List A) → length (update n f l) ≡ length l
  length-update n f [] = ground arith
  length-update zero f (x ∷ xs) = refl
  length-update (suc n) f (x ∷ xs) = omega (arith, length-update n f xs)

  -- What is read after a write.
  pub update-read :
      (n : ℕ) (f : A → A) (l : List A) (k : ℕ) (y : A)
      → get_elem? (update n f l) k ≡ some y
      → (x : A) × (get_elem? l k ≡ some x) × ((n ≡ k → y ≡ f x) × (n ≢ k → y ≡ x))
  update-read n f [] k y h = ground arith
  update-read zero f (x ∷ xs) zero y h = (x, refl, (λ _. ground arith, λ e. absurd (e refl)))
  update-read zero f (x ∷ xs) (suc k) y h = (y, h, (λ e. absurd (omega arith), λ _. refl))
  update-read (suc n) f (x ∷ xs) zero y h = (y, h, (λ e. absurd (omega arith), λ _. refl))
  update-read (suc n) f (x ∷ xs) (suc k) y h =
      let (z, r, (here, there)) = update-read n f xs k y h in
      (z, r, (λ e. here (omega arith), λ e. there (λ q. e (omega arith))))

  pub get_elem?-update-none :
      (n : ℕ) (f : A → A) (l : List A) (k : ℕ)
      → get_elem? (update n f l) k ≡ none
      → get_elem? l k ≡ none
  get_elem?-update-none n f [] k h = ground arith
  get_elem?-update-none zero f (x ∷ xs) zero h = absurd (cc)
  get_elem?-update-none zero f (x ∷ xs) (suc k) h = h
  get_elem?-update-none (suc n) f (x ∷ xs) zero h = absurd (cc)
  get_elem?-update-none (suc n) f (x ∷ xs) (suc k) h = get_elem?-update-none n f xs k h

  -- What is read after an object is added.
  pub added-read :
      (l : List A) (a : A) (k : ℕ) (y : A)
      → get_elem? (l ++ a ∷ []) k ≡ some y
      → ((get_elem? l k ≡ some y) × (k < length l)) ⊎ ((k ≡ length l) × (y ≡ a))
  added-read [] a zero y h = inr (refl, ground arith)
  added-read [] a (suc k) y h = absurd (cc)
  added-read (x ∷ xs) a zero y h = inl (h, omega arith)
  added-read (x ∷ xs) a (suc k) y h = elim (added-read xs a k y h) [
    | inl (r, lt) ↦ inl (r, omega arith)
    | inr (e, q) ↦ inr (omega arith, q)
  ]

  pub read-lt : (l : List A) (k : ℕ) (y : A) → get_elem? l k ≡ some y → k < length l
  read-lt [] k y h = absurd (cc)
  read-lt (x ∷ xs) zero y h = omega arith
  read-lt (x ∷ xs) (suc k) y h = omega (arith, read-lt xs k y h)

  pub read_beyond : (l : List A) → get_elem? l (length l) ≡ none
  read_beyond [] = refl
  read_beyond (x ∷ xs) = read_beyond xs

  pub added_none :
      (l : List A) (a : A) (k : ℕ) → get_elem? (l ++ a ∷ []) k ≡ none → get_elem? l k ≡ none
  added_none [] a k h = ground arith
  added_none (x ∷ xs) a zero h = absurd (cc)
  added_none (x ∷ xs) a (suc k) h = added_none xs a k h

  pub get_elem?-update :
      (n : ℕ) (f : A → A) (l : List A) (k : ℕ) (x : A)
      → get_elem? l k ≡ some x
      → get_elem? (update n f l) k ≡ some (if n == k then f x else x)
  get_elem?-update n f [] k x h = absurd (cc)
  get_elem?-update zero f (y ∷ l) zero x h = ground arith
  get_elem?-update zero f (y ∷ l) (suc k) x h = ground (arith, h)
  get_elem?-update (suc n) f (y ∷ l) zero x h = ground (arith, h)
  get_elem?-update (suc n) f (y ∷ l) (suc k) x h = ground (arith, get_elem?-update n f l k x h)

  pub get_elem?-append :
      (l r : List A) (k : ℕ) (x : A) → get_elem? l k ≡ some x → get_elem? (l ++ r) k ≡ some x
  get_elem?-append [] r k x h = absurd (cc)
  get_elem?-append (y ∷ l) r zero x h = h
  get_elem?-append (y ∷ l) r (suc k) x h = get_elem?-append l r k x h
