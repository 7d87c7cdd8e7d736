-- ===== src/Policy/Winner.antt =====
-- The winning rule of `evaluate` (packages/policy/src/declarative-policy.ts): it is one of the
-- matching rules, and no matching rule goes before it.
use cesspace_arc.Base.{
  ℕ, zero, suc, ◌≡◌, refl, sym, ◌∙◌, subst, ◌⊎◌, inl, inr, Bool, true, false, ◌&&◌, ◌||◌, none,
  some, List, [], ◌∷◌, Text, get_elem?, ltb, ◌==◌, if◌then◌else◌, Bool-cases, arith,
}
use cesspace_arc.Policy.Order.{
  compare_strings_before, text_less, text_less_irrefl, text_less_trans, text_less_total,
  text_less_negtrans,
}
use cesspace_arc.Policy.Documents.{PolicyEffect, deny, require_approval, allow}
use cesspace_arc.Policy.Engine.{CompiledRule}
use cesspace_arc.Policy.Evaluation.{Target, effect_rank, Winner, wins_over, rule_matches, resolve}

-- A candidate goes before another: by its effect, then by its id.
unfoldable pub beats : PolicyEffect × Text → PolicyEffect × Text → Bool
beats (e, i) (f, j) =
    ltb (effect_rank e) (effect_rank f) || (effect_rank e == effect_rank f && text_less i j)

abbrev pub key : CompiledRule → PolicyEffect × Text
key r = (r.effect, r.id)

beats_negtrans :
    (a b c : PolicyEffect × Text) → beats b a ≡ false → beats c b ≡ false → beats c a ≡ false
unfolding beats
beats_negtrans (e, i) (f, j) (g, k) h h' = ground (arith, text_less_negtrans i j k)

beats_irrefl : (a : PolicyEffect × Text) → beats a a ≡ false
unfolding beats
beats_irrefl (e, i) = ground (arith, text_less_irrefl i)

pub beats_asym : (a b : PolicyEffect × Text) → beats a b ≡ true → beats b a ≡ false
unfolding beats
beats_asym (e, i) (f, j) h = ground (arith, text_less_trans i j i, text_less_irrefl i)

pub beats_trans :
    (a b c : PolicyEffect × Text) → beats a b ≡ true → beats b c ≡ true → beats a c ≡ true
unfolding beats
beats_trans (e, i) (f, j) (g, k) h h' = ground (arith, text_less_trans i j k)

pub beats_total : (a b : PolicyEffect × Text) → beats a b ≡ false → beats b a ≡ false → a ≡ b
unfolding beats
beats_total (deny, i) (deny, j) h h' = ground (arith, text_less_total i j)
beats_total (require_approval, i) (require_approval, j) h h' = ground (arith, text_less_total i j)
beats_total (allow, i) (allow, j) h h' = ground (arith, text_less_total i j)
beats_total (e, i) (f, j) h h' = absurd (ground arith)

pub wins_over-eq-beats :
    (r : CompiledRule) (k : PolicyEffect × Text) → wins_over r (some k) ≡ beats (key r) k
unfolding wins_over beats
wins_over-eq-beats r (f, j) = rw (compare_strings_before r.id j)

-- Nothing that goes before the winner.
unfoldable pub Unbeaten : PolicyEffect × Text → Winner → Type 0
Unbeaten k none = ⊥
Unbeaten k (some w) = beats k w ≡ false

abbrev step : CompiledRule → Target → Winner → Winner
step r t w = if rule_matches r t && wins_over r w then some (r.effect, r.id) else w

step_keeps :
    (r : CompiledRule) (t : Target) (k : PolicyEffect × Text) (w : Winner)
    → Unbeaten k w
    → Unbeaten k (step r t w)
unfolding Unbeaten
step_keeps r t k none h = absurd h
step_keeps r t k (some w) h = elim (Bool-cases (rule_matches r t && wins_over r (some w))) [
  | inr stays ↦ rw stays h
  | inl taken ↦
      let b : beats (key r) w ≡ true = ground (arith, wins_over-eq-beats r w) in
      rw taken (beats_negtrans (key r) w k (beats_asym (key r) w b) h)
]

step_covers :
    (r : CompiledRule) (t : Target) (w : Winner)
    → rule_matches r t ≡ true
    → Unbeaten (key r) (step r t w)
unfolding Unbeaten wins_over
step_covers r t none h = rw h (beats_irrefl (key r))
step_covers r t (some w) h = elim (Bool-cases (wins_over r (some w))) [
  | inl taken ↦ rw (h, taken) (beats_irrefl (key r))
  | inr stays ↦ rw (h, stays) (sym (wins_over-eq-beats r w) ∙ stays)
]

resolve_keeps :
    (rules : List CompiledRule) (t : Target) (k : PolicyEffect × Text) (w : Winner)
    → Unbeaten k w
    → Unbeaten k (resolve rules t w)
unfolding resolve
resolve_keeps [] t k w h = h
resolve_keeps (r ∷ rules) t k w h = resolve_keeps rules t k (step r t w) (step_keeps r t k w h)

pub resolve_covers :
    (rules : List CompiledRule) (t : Target) (w : Winner) (n : ℕ) (r : CompiledRule)
    → get_elem? rules n ≡ some r
    → rule_matches r t ≡ true
    → Unbeaten (key r) (resolve rules t w)
unfolding resolve
resolve_covers [] t w n r h m = absurd (cc)
resolve_covers (x ∷ rules) t w zero r h m =
    let same : r ≡ x = ground arith in
    resolve_keeps rules t (key r) (step x t w)
      (subst (λ y. Unbeaten (key r) (step y t w)) same (step_covers r t w m))
resolve_covers (x ∷ rules) t w (suc n) r h m = resolve_covers rules t (step x t w) n r h m

-- The winner is a matching rule of the list.
abbrev pub Won : List CompiledRule → Target → PolicyEffect × Text → Type 0
Won rules t k =
    (n : ℕ) × (r : CompiledRule) × (get_elem? rules n ≡ some r)
    × (rule_matches r t ≡ true)
    × (r.effect ≡ k.0)
    × (r.id ≡ k.1)

later :
    (x : CompiledRule) (rules : List CompiledRule) (t : Target) (k : PolicyEffect × Text)
    → Won rules t k
    → Won (x ∷ rules) t k
later x rules t k (n, r, h, m, e, i) = (suc n, r, h, m, e, i)

pub resolve_from :
    (rules : List CompiledRule) (t : Target) (w : Winner) (k : PolicyEffect × Text)
    → resolve rules t w ≡ some k
    → (w ≡ some k) ⊎ Won rules t k
unfolding resolve
resolve_from [] t w k h = inl h
resolve_from (r ∷ rules) t w k h = elim (resolve_from rules t (step r t w) k h) [
  | inr won ↦ inr (later r rules t k won)
  | inl here ↦ elim (Bool-cases (rule_matches r t && wins_over r w)) [
    | inr stays ↦ inl (rw stays at here)
    | inl taken ↦
        let e : some (key r) ≡ some k = rw taken at here in
        inr (zero, r, refl, ground arith, ground arith, ground arith)
  ]
]
