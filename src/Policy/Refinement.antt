-- ===== src/Policy/Refinement.antt =====
-- The engine that is made for a policy document decides by what the document means
-- (packages/policy/src/declarative-policy.ts).
use cesspace_arc.Base.{
  ◌≡◌, refl, sym, ap, subst, ◌∙◌, none, some, >>=-eq-some, eq_of_some, List, ◌∷◌, Text, map,
}
use mathlib.Core.List.{Permᴰ}
use mathlib.Core.List.Permᴰ
use cesspace_arc.Policy.Documents.{ParsedRule, ParsedDocument}
use cesspace_arc.Policy.Normal.{normal_rule, normalize_policy}
use cesspace_arc.Policy.Engine.{
  CompiledRule, compile_rule, compile_rules, SourceMode, Engine, new_engine,
}
use cesspace_arc.Policy.Evaluation.{Target, resolve, decide, refusal, evaluate}
use cesspace_arc.Policy.Decisions.{evaluate_admitted}
use cesspace_arc.Policy.Reorder.{resolve-Perm}
use cesspace_arc.Policy.Unique.{sort_by_key-Perm}
use cesspace_arc.Policy.Meaning.{document_winner, resolve-document}

compile_rules-cons :
    (r : ParsedRule) (rules : List ParsedRule) (c : CompiledRule) (cs : List CompiledRule)
    → compile_rule r ≡ some c
    → compile_rules rules ≡ some cs
    → compile_rules (r ∷ rules) ≡ some (c ∷ cs)
unfolding compile_rules
compile_rules-cons r rules c cs e e' = rw (e, e')

compiled_parts :
    (r : ParsedRule) (rules : List ParsedRule) (cs : List CompiledRule)
    → compile_rules (r ∷ rules) ≡ some cs
    → (c : CompiledRule) × (rest : List CompiledRule) × (compile_rule r ≡ some c)
      × (compile_rules rules ≡ some rest)
      × (c ∷ rest ≡ cs)
unfolding compile_rules
compiled_parts r rules cs h =
    let (c, e, h1) = >>=-eq-some (compile_rule r) _ h in
    let (rest, e', h2) = >>=-eq-some (compile_rules rules) _ h1 in (c, rest, e, e', eq_of_some h2)

-- Rules in another order compile to compiled rules in that order.
compile_rules-Perm :
    {l l' : List ParsedRule} (cs : List CompiledRule)
    → Permᴰ l l'
    → compile_rules l ≡ some cs
    → (cs' : List CompiledRule) × (compile_rules l' ≡ some cs') × Permᴰ cs cs'
compile_rules-Perm cs Permᴰ.nil h = (cs, h, Permᴰ.refl cs)
compile_rules-Perm cs (Permᴰ.cons {a} {b} {l₁} {l₂} e p) h =
    let (c, rest, ec, er, same) = compiled_parts a l₁ cs h in
    let (rest', er', q) = compile_rules-Perm rest p er in
    (
      c ∷ rest',
      compile_rules-cons b l₂ c rest' (ap compile_rule (sym e) ∙ ec) er',
      subst (λ x. Permᴰ x (c ∷ rest')) same (Permᴰ.cons refl q),
    )
compile_rules-Perm cs (Permᴰ.swap {a} {b} {a'} {b'} {l} e e') h =
    let (c, tail, ec, et, same) = compiled_parts a (b ∷ l) cs h in
    let (d, rest, ed, er, same') = compiled_parts b l tail et in
    (
      d ∷ c ∷ rest,
      compile_rules-cons a' (b' ∷ l) d (c ∷ rest) (ap compile_rule (sym e') ∙ ed)
          (compile_rules-cons b' l c rest (ap compile_rule (sym e) ∙ ec) er),
      subst (λ x. Permᴰ x (d ∷ c ∷ rest)) (ap (λ x. c ∷ x) same' ∙ same) (Permᴰ.swap refl refl),
    )
compile_rules-Perm cs (Permᴰ.trans p q) h =
    let (cs', h', p') = compile_rules-Perm cs p h in
    let (cs'', h'', q') = compile_rules-Perm cs' q h' in (cs'', h'', Permᴰ.trans p' q')

-- The engine that is made for a document decides every target that it admits by the rule of the
-- document that comes first by effect and id among those that cover the target, whatever the order
-- of the rules in the document, and with the matchers as they are written in it.
pub engine_decides_document :
    (canonical_hash : ParsedDocument → Text) (mode : SourceMode) (d : ParsedDocument) (e : Engine)
    (target : Target)
    → new_engine canonical_hash mode (normalize_policy d) ≡ some e
    → refusal target ≡ none
    → evaluate e target ≡ decide mode target.tool_name (document_winner d.rules target none)
unfolding new_engine normalize_policy
engine_decides_document canonical_hash mode d e target made admitted =
    let (cs, compiled, h1) = >>=-eq-some (compile_rules (normalize_policy d).rules) _ made in
    let engine = eq_of_some h1 in
    let (cs', in_order, p) =
      compile_rules-Perm cs (sort_by_key-Perm (λ (r : ParsedRule). r.id) (map normal_rule d.rules))
        compiled in
    let won : resolve cs target none ≡ document_winner d.rules target none =
      resolve-Perm target none p ∙ resolve-document d.rules cs' target none in_order in
    subst
      (λ (x : Engine).
        evaluate x target ≡ decide mode target.tool_name (document_winner d.rules target none))
      engine (evaluate_admitted _ target _ admitted won)
