-- ===== src/Browserpool/Selects.antt =====
-- internal/browserpool/acquire.go: which browser `selectInstance` picks.
use mathlib.Core.Path.{subst}
use mathlib.Core.List.{Memᴰ}
use omegacrawl.Base.{
  ◌≤◌, ◌≡◌, refl, sym, ap, ◌∙◌, ◌⊎◌, true, false, ◌&&◌, List, [], ◌∷◌, Option, none, some, ltb,
  arith, inl, inr, Bool-cases, if◌then◌else◌,
}
use omegacrawl.Browserpool.Pool.{BrowserInstance, Pool, select_from, select_instance}

-- The choice among the instances: a healthy one that was used no later than any other healthy one, or
-- none where none is healthy.
abbrev pub LeastUsed : (BrowserInstance → Type 0) → Option BrowserInstance → Type 0
LeastUsed among none = (i : BrowserInstance) → among i → i.healthy ≡ false
LeastUsed among (some best) =
    among best
    × (best.healthy ≡ true)
    × ((i : BrowserInstance) → among i → i.healthy ≡ true → best.last_used ≤ i.last_used)

abbrev Or : (BrowserInstance → Type 0) → List BrowserInstance → BrowserInstance → Type 0
Or seen l i = seen i ⊎ Memᴰ i l

abbrev Also : (BrowserInstance → Type 0) → BrowserInstance → BrowserInstance → Type 0
Also seen inst i = seen i ⊎ (i ≡ inst)

LeastUsed-same :
    (a b : BrowserInstance → Type 0) (o : Option BrowserInstance)
    → ((i : BrowserInstance) → a i → b i)
    → ((i : BrowserInstance) → b i → a i)
    → LeastUsed a o
    → LeastUsed b o
LeastUsed-same a b none f g h = λ i m. h i (g i m)
LeastUsed-same a b (some best) f g (m, e, h) = (f best m, e, λ i n. h i (g i n))

-- The best instance after one more.
better :
    (seen : BrowserInstance → Type 0) (o : Option BrowserInstance) (inst : BrowserInstance)
    → LeastUsed seen o
    → LeastUsed (Also seen inst) (elim o [
      | none ↦ if inst.healthy then some inst else none
      | some best ↦
          if inst.healthy && ltb inst.last_used best.last_used then some inst else some best
    ])
better seen none inst h = elim (Bool-cases inst.healthy) [
  | inl e ↦
      subst (λ b. LeastUsed (Also seen inst) (if b then some inst else none)) (sym e)
        (
          inr refl,
          e,
          λ i m t. elim m [
            | inl n ↦ absurd (ground (arith, h i n, t))
            | inr p ↦ rw p (omega arith)
          ],
        )
  | inr e ↦
      subst (λ b. LeastUsed (Also seen inst) (if b then some inst else none)) (sym e)
        (λ i m. elim m [ inl n ↦ h i n | inr p ↦ ap (λ x. x.healthy) p ∙ e ])
]
better seen (some best) inst (m, e, h) =
    elim (Bool-cases (inst.healthy && ltb inst.last_used best.last_used)) [
      | inl t ↦ rw t (
        inr refl,
        ground (arith, t),
        λ i n s. elim n [ inl n ↦ ground (arith, t, h i n s) | inr p ↦ rw p (omega arith) ],
      )
      | inr t ↦ rw t (
        inl m,
        e,
        λ i n s. elim n [
          | inl n ↦ h i n s
          | inr p ↦ ground (arith, t, s, ap (λ x. x.healthy) p, ap (λ x. x.last_used) p)
        ],
      )
    ]

shift :
    (seen : BrowserInstance → Type 0) (inst : BrowserInstance) (l : List BrowserInstance)
    (o : Option BrowserInstance)
    → LeastUsed (Or (Also seen inst) l) o
    → LeastUsed (Or seen (inst ∷ l)) o
shift seen inst l o =
    LeastUsed-same (Or (Also seen inst) l) (Or seen (inst ∷ l)) o
      (λ i m. elim m [
        | inl (inl n) ↦ inl n
        | inl (inr e) ↦ inr (Memᴰ.head e)
        | inr n ↦ inr (Memᴰ.tail n)
      ])
      (λ i m. elim m [
        | inl n ↦ inl (inl n)
        | inr (Memᴰ.head e) ↦ inl (inr e)
        | inr (Memᴰ.tail n) ↦ inr n
      ])

select_from-LeastUsed :
    (seen : BrowserInstance → Type 0) (o : Option BrowserInstance) (l : List BrowserInstance)
    → LeastUsed seen o
    → LeastUsed (Or seen l) (select_from o l)
unfolding select_from
select_from-LeastUsed seen o [] h =
    LeastUsed-same seen (Or seen []) o (λ i m. inl m)
      (λ i m. elim m [ inl n ↦ n | inr n ↦ elim n [ ] ]) h
select_from-LeastUsed seen none (inst ∷ l) h =
    shift seen inst l _ (select_from-LeastUsed (Also seen inst) _ l (better seen none inst h))
select_from-LeastUsed seen (some best) (inst ∷ l) h =
    shift seen inst l _
      (select_from-LeastUsed (Also seen inst) _ l (better seen (some best) inst h))

-- `selectInstance` picks a healthy browser that was used no later than any other healthy one, and
-- none exactly where no browser of the pool is healthy.
pub select_instance-LeastUsed : (p : Pool) → LeastUsed (λ i. Memᴰ i p.instances) (select_instance p)
unfolding select_instance
select_instance-LeastUsed p =
    LeastUsed-same (Or (λ i. ⊥) p.instances) (λ i. Memᴰ i p.instances)
      (select_from none p.instances) (λ i m. elim m [ inl n ↦ absurd n | inr n ↦ n ]) (λ i m. inr m)
      (select_from-LeastUsed (λ i. ⊥) none p.instances (λ i m. absurd m))
