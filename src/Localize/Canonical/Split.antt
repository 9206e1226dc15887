-- ===== src/Localize/Canonical/Split.antt =====
-- internal/localize/canonical.go: `strings.Split` undoes `strings.Join` with a byte that no part has.
use omegacrawl.Base.{
  ℕ, ◌≡◌, ◌≢◌, refl, ap, ◌∙◌, inl, inr, Bool-cases, true, false, List, [], ◌∷◌, ◌++◌, All, arith,
  ◌==◌,
}
use omegacrawl.Localize.Canonical.{split, join}

-- The byte is not in the text.
abbrev pub Lacks : ℕ → List ℕ → Type 0
Lacks sep p = All (λ b. b ≢ sep) p

module _ (sep : ℕ) where
  pub split-cons : (s : List ℕ) → (p : List ℕ) × (ps : List (List ℕ)) × (split sep s ≡ p ∷ ps)
  unfolding split
  split-cons [] = ([], [], refl)
  split-cons (c ∷ s) =
      let (p, ps, e) = split-cons s in
      elim (Bool-cases (c == sep)) [
        | inl t ↦ ([], p ∷ ps, rw (split, e, t) refl)
        | inr t ↦ (c ∷ p, ps, rw (split, e, t) refl)
      ]

  pub split-last : (p : List ℕ) → Lacks sep p → split sep p ≡ p ∷ []
  unfolding split
  split-last [] h = refl
  split-last (c ∷ p) (n, h) =
      let e : (c == sep) ≡ false = ground arith in rw (split, split-last p h, e) refl

  pub split-append : (p s : List ℕ) → Lacks sep p → split sep (p ++ sep ∷ s) ≡ p ∷ split sep s
  unfolding split
  split-append [] s h =
      let (q, qs, e) = split-cons s in
      let t : (sep == sep) ≡ true = ground arith in rw (split, e, t) refl
  split-append (c ∷ p) s (n, h) =
      let e : (c == sep) ≡ false = ground arith in rw (split, split-append p s h, e) refl

  pub split-join :
      (p : List ℕ) (ps : List (List ℕ))
      → All (Lacks sep) (p ∷ ps)
      → split sep (join sep (p ∷ ps)) ≡ p ∷ ps
  unfolding join
  split-join p [] (h, t) = split-last p h
  split-join p (q ∷ ps) (h, t) =
      split-append p (join sep (q ∷ ps)) h ∙ ap (λ l. p ∷ l) (split-join q ps t)
