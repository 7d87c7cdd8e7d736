-- ===== src/Policy/Decisions.antt =====
-- What a decision of `evaluate` (packages/policy/src/declarative-policy.ts) says of the rules.
use cesspace_arc.Base.{
  ℕ, ◌≡◌, refl, sym, ap, ◌∙◌, inl, inr, true, false, none, some, Text, has, get_elem?, Option-cases,
  arith,
}
use cesspace_arc.Policy.Order.{text_less}
use cesspace_arc.Policy.Tools.{rc03_mutation_tools}
use cesspace_arc.Policy.Documents.{PolicyEffect, deny, allow}
use cesspace_arc.Policy.Engine.{CompiledRule, SourceMode, built_in, external, Engine}
use cesspace_arc.Policy.Evaluation.{
  Target, denied, allowed, Decision, Winner, rule_matches, resolve, decide, refusal, evaluate,
}
use cesspace_arc.Policy.Winner.{beats, key, Unbeaten, resolve_covers, resolve_from}

-- Every refusal of a target is a denial.
refusal_denies : (target : Target) (d : Decision) → refusal target ≡ some d → d.outcome ≡ denied
unfolding refusal
refusal_denies target d h = ground arith

pub evaluate_refused :
    (engine : Engine) (target : Target) (d : Decision)
    → refusal target ≡ some d
    → evaluate engine target ≡ d
unfolding evaluate
evaluate_refused engine target d h = rw (evaluate, h)

pub evaluate_admitted :
    (engine : Engine) (target : Target) (w : Winner)
    → refusal target ≡ none
    → resolve engine.compiled_rules target none ≡ w
    → evaluate engine target ≡ decide engine.mode target.tool_name w
unfolding evaluate
evaluate_admitted engine target w h e = rw (evaluate, h, e)

no_winner_denies : (mode : SourceMode) (tool : Text) → (decide mode tool none).outcome ≡ denied
unfolding decide
no_winner_denies built_in tool = refl
no_winner_denies external tool = refl

deny_winner_denies :
    (mode : SourceMode) (tool id : Text) → (decide mode tool (some (deny, id))).outcome ≡ denied
unfolding decide
deny_winner_denies mode tool id = refl

-- Only ALLOW for a tool that is no file mutation gives an allowance.
allow_of_winner :
    (mode : SourceMode) (tool id : Text) (e : PolicyEffect)
    → (decide mode tool (some (e, id))).outcome ≡ allowed
    → (e ≡ allow)
      × (has tool rc03_mutation_tools ≡ false)
      × ((decide mode tool (some (e, id))).matching_rule_id ≡ id)
unfolding decide
allow_of_winner mode tool id e h = ground arith

-- What an unbeaten ALLOW leaves for another candidate.
Unbeaten-allow :
    (r : CompiledRule) (e : PolicyEffect) (id : Text)
    → e ≡ allow
    → Unbeaten (key r) (some (e, id))
    → (r.effect ≡ allow) × (text_less r.id id ≡ false)
unfolding beats Unbeaten
Unbeaten-allow r e id h u = ground arith

-- A matching rule with the effect DENY denies the target, wherever it stands and whatever other
-- rules match.
pub deny_prevails :
    (engine : Engine) (target : Target) (n : ℕ) (r : CompiledRule)
    → get_elem? engine.compiled_rules n ≡ some r
    → rule_matches r target ≡ true
    → r.effect ≡ deny
    → (evaluate engine target).outcome ≡ denied
unfolding beats Unbeaten
deny_prevails engine target n r h m e = elim (Option-cases (refusal target)) [
  | inr (d, refused) ↦
      rw (evaluate_refused engine target d refused) (refusal_denies target d refused)
  | inl admitted ↦
      let covered = resolve_covers engine.compiled_rules target none n r h m in
      elim (Option-cases (resolve engine.compiled_rules target none)) [
        | inl nobody ↦
            rw (evaluate_admitted engine target none admitted nobody)
              (no_winner_denies engine.mode target.tool_name)
        | inr ((f, id), won) ↦
            let unbeaten : Unbeaten (key r) (some (f, id)) = rw won at covered in
            let top : f ≡ deny = ground arith in
            rw (evaluate_admitted engine target (some (f, id)) admitted won, top)
              (deny_winner_denies engine.mode target.tool_name id)
      ]
]

-- A target is allowed only if it passes admission, the tool is no file mutation, some matching rule
-- has the effect ALLOW and the id that the decision names, and every matching rule has the effect
-- ALLOW and an id that is not before that one.
pub allowed_only_by_rule :
    (engine : Engine) (target : Target)
    → (evaluate engine target).outcome ≡ allowed
    → (refusal target ≡ none)
      × (has target.tool_name rc03_mutation_tools ≡ false)
      × ((n : ℕ) × (r : CompiledRule) × (get_elem? engine.compiled_rules n ≡ some r)
          × (rule_matches r target ≡ true)
          × (r.effect ≡ allow)
          × (r.id ≡ (evaluate engine target).matching_rule_id))
      × ((n : ℕ) (r : CompiledRule)
          → get_elem? engine.compiled_rules n ≡ some r
          → rule_matches r target ≡ true
          → (r.effect ≡ allow) × (text_less r.id (evaluate engine target).matching_rule_id ≡ false))
unfolding beats Unbeaten
allowed_only_by_rule engine target h = elim (Option-cases (refusal target)) [
  | inr (d, refused) ↦
      absurd
        (ground (arith, evaluate_refused engine target d refused, refusal_denies target d refused))
  | inl admitted ↦ elim (Option-cases (resolve engine.compiled_rules target none)) [
    | inl nobody ↦ absurd (
        ground (
          arith,
          evaluate_admitted engine target none admitted nobody,
          no_winner_denies engine.mode target.tool_name,
        ))
    | inr ((e, id), won) ↦
        let same = evaluate_admitted engine target (some (e, id)) admitted won in
        let (is_allowed, no_mutation, named) =
          allow_of_winner engine.mode target.tool_name id e (rw same at h) in
        let name : (evaluate engine target).matching_rule_id ≡ id =
          ap (λ (d : Decision). d.matching_rule_id) same ∙ named in
        elim (resolve_from engine.compiled_rules target none (e, id) won) [
          | inl nothing ↦ absurd (cc)
          | inr (n, r, g, m, effect, ident) ↦ (
            admitted,
            no_mutation,
            (n, r, g, m, effect ∙ is_allowed, ident ∙ sym name),
            λ n' r' g' m'.
                let covered = resolve_covers engine.compiled_rules target none n' r' g' m' in
                rw name (Unbeaten-allow r' e id is_allowed (rw won at covered)),
          )
        ]
  ]
]
