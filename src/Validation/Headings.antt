-- ===== src/Validation/Headings.antt =====
-- missingInOrder of validation.go: which headings of a template an artifact lacks.
use mathlib.Core.Option.{some-injective}
use agentwrap.Prelude.{
  String, ◌≡◌, refl, sym, subst, ◌∙◌, ◌↔◌, inl, inr, Option, none, some, List, [], ◌∷◌, str_eq,
  eq_iff, Bool-cases, if◌then◌else◌,
}

-- The inner loop: the headings behind the next one that is `heading`; `none` where it is not met, and
-- the position is then at the end.
unfoldable pub seek : String → List String → Option (List String)
seek heading [] = none
seek heading (o ∷ os) = if str_eq o heading then some os else seek heading os

unfoldable pub after : Option (List String) → List String
after none = []
after (some rest) = rest

unfoldable pub report : Option (List String) → String → List String → List String
report none heading missing = heading ∷ missing
report (some rest) heading missing = missing

-- The list `observed` is what stands from the position on.
unfoldable pub missing_in_order : List String → List String → List String
unfolding seek after report
missing_in_order [] observed = []
missing_in_order (heading ∷ expected) observed =
    report (seek heading observed) heading
      (missing_in_order expected (after (seek heading observed)))

-- The first list can be had from the second by leaving headings out.
pub data InOrder : List String → List String → Type 0 where
  all_found : {os : List String} → InOrder [] os
  leave_out : {hs os : List String} (o : String) → InOrder hs os → InOrder hs (o ∷ os)
  found : {hs os : List String} (h o : String) → o ≡ h → InOrder hs os → InOrder (h ∷ hs) (o ∷ os)

InOrder-tail : {h : String} {hs os : List String} → InOrder (h ∷ hs) os → InOrder hs os
InOrder-tail (leave_out o i) = leave_out o (InOrder-tail i)
InOrder-tail (found h o e i) = leave_out o i

seek_sound :
    (h : String) (hs os rest : List String)
    → seek h os ≡ some rest
    → InOrder hs rest
    → InOrder (h ∷ hs) os
unfolding seek
seek_sound h hs [] rest e i = absurd (cc)
seek_sound h hs (o ∷ os) rest e i = elim (Bool-cases (str_eq o h)) [
  | inl t ↦
      let same : some os ≡ some rest = rw t at e in
      found h o ((eq_iff o h).0 t) (subst (InOrder hs) (sym (some-injective _ _ same)) i)
  | inr f ↦ leave_out o (seek_sound h hs os rest (rw f at e) i)
]

-- The first occurrence is as good as any.
seek_complete :
    (h : String) (hs os : List String)
    → InOrder (h ∷ hs) os
    → (rest : List String) × (seek h os ≡ some rest) × InOrder hs rest
unfolding seek
seek_complete h hs [] i = elim i [ ]
seek_complete h hs (o ∷ os) i = elim (Bool-cases (str_eq o h)) [
  | inl t ↦ (os, rw t, first_step i)
  | inr f ↦
      let later = seek_complete h hs os (skipped i (λ e. cc (f, (eq_iff o h).1 e))) in
      (later.0, rw f later.1, later.2)
]
  where
    first_step : InOrder (h ∷ hs) (o ∷ os) → InOrder hs os
    first_step (leave_out _ i) = InOrder-tail i
    first_step (found _ _ e i) = i

    skipped : InOrder (h ∷ hs) (o ∷ os) → (o ≡ h → ⊥) → InOrder (h ∷ hs) os
    skipped (leave_out _ i) n = i
    skipped (found _ _ e i) n = absurd (n e)

-- What one heading contributes, by where the search for it ended.
report_exact :
    (h : String) (hs os : List String) (sought : Option (List String))
    → seek h os ≡ sought
    → ((rest : List String) → missing_in_order hs rest ≡ [] ↔ InOrder hs rest)
    → report sought h (missing_in_order hs (after sought)) ≡ [] ↔ InOrder (h ∷ hs) os
unfolding report after
report_exact h hs os none e ih =
    (λ m. absurd (cc m), λ i. absurd (cc (e, (seek_complete h hs os i).1)))
report_exact h hs os (some rest) e ih = (
  λ m. seek_sound h hs os rest e ((ih rest).0 m),
  λ i.
      let split = seek_complete h hs os i in
      let same : split.0 ≡ rest = some-injective _ _ (sym split.1 ∙ e) in
      (ih rest).1 (subst (InOrder hs) same split.2),
)

-- Nothing is reported missing exactly where the expected headings stand among the observed ones in
-- their order, with any others between them.
pub missing_in_order_exact :
    (expected observed : List String)
    → missing_in_order expected observed ≡ [] ↔ InOrder expected observed
unfolding missing_in_order
missing_in_order_exact [] os = (λ _. all_found, λ _. refl)
missing_in_order_exact (h ∷ hs) os =
    report_exact h hs os (seek h os) refl (missing_in_order_exact hs)
