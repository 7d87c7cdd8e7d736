-- ===== src/Policy/Reorder.antt =====
-- The order of the rules has no part in a decision (packages/policy/src/declarative-policy.ts).
use cesspace_arc.Base.{
  ◌≡◌, refl, sym, ◌∙◌, ap, inl, inr, ◌&&◌, none, some, List, if◌then◌else◌, Option-cases, arith,
}
use mathlib.Core.List.{Permᴰ}
use cesspace_arc.Policy.Engine.{CompiledRule, Engine}
use cesspace_arc.Policy.Evaluation.{
  Target, Winner, wins_over, rule_matches, resolve, decide, refusal, evaluate,
}
use cesspace_arc.Policy.Decisions.{evaluate_refused, evaluate_admitted}
use cesspace_arc.Policy.Winner.{key, beats_asym, beats_trans, beats_total, wins_over-eq-beats}

abbrev step : CompiledRule → Target → Winner → Winner
step r t w = if rule_matches r t && wins_over r w then some (r.effect, r.id) else w

-- Two rules can be met in either order.
step_comm :
    (r q : CompiledRule) (t : Target) (w : Winner) → step q t (step r t w) ≡ step r t (step q t w)
unfolding wins_over
step_comm r q t none = ground (
  arith,
  wins_over-eq-beats r (key q),
  wins_over-eq-beats q (key r),
  beats_asym (key r) (key q),
  beats_total (key r) (key q),
)
step_comm r q t (some w) = ground (
  arith,
  wins_over-eq-beats r (key q),
  wins_over-eq-beats q (key r),
  wins_over-eq-beats r w,
  wins_over-eq-beats q w,
  beats_asym (key r) (key q),
  beats_total (key r) (key q),
  beats_trans (key r) (key q) w,
  beats_trans (key q) (key r) w,
)

pub resolve-Perm :
    {l l' : List CompiledRule} (target : Target) (w : Winner)
    → Permᴰ l l'
    → resolve l target w ≡ resolve l' target w
unfolding resolve
resolve-Perm target w Permᴰ.nil = refl
resolve-Perm target w (Permᴰ.cons {a} {l₁} {l₂} e p) =
    resolve-Perm target (step a target w) p ∙ ap (λ b. resolve l₂ target (step b target w)) e
resolve-Perm target w (Permᴰ.swap {a} {b} {a'} {b'} {l} e e') =
    ap (resolve l target) (step_comm a b target w)
    ∙ ap (λ x. resolve l target (step x target (step b target w))) e
    ∙ ap (λ y. resolve l target (step b' target (step y target w))) e'
resolve-Perm target w (Permᴰ.trans p q) = resolve-Perm target w p ∙ resolve-Perm target w q

-- Engines of the same mode whose rules are the same up to their order decide every target alike.
pub evaluate-Perm :
    (engine engine' : Engine) (target : Target)
    → engine.mode ≡ engine'.mode
    → Permᴰ engine.compiled_rules engine'.compiled_rules
    → evaluate engine target ≡ evaluate engine' target
unfolding evaluate
evaluate-Perm engine engine' target m p = elim (Option-cases (refusal target)) [
  | inr (d, refused) ↦
      evaluate_refused engine target d refused ∙ sym (evaluate_refused engine' target d refused)
  | inl admitted ↦
      evaluate_admitted engine target _ admitted (resolve-Perm target none p)
      ∙ ap (λ mode. decide mode target.tool_name (resolve engine'.compiled_rules target none)) m
      ∙ sym (evaluate_admitted engine' target _ admitted refl)
]
