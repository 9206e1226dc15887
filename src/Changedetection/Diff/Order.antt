-- ===== src/Changedetection/Diff/Order.antt =====
-- internal/changedetection/detector.go: the changes sorted by selector.
use omegacrawl.Base.{
  ℕ, ◌≡◌, refl, ◌∙◌, inl, inr, Bool-cases, true, List, [], ◌∷◌, All, arith, if◌then◌else◌, Option,
  none, some,
}
use omegacrawl.Errors.Contains.{bytes_equal, bytes_equal_iff}
use omegacrawl.Localize.Dedup.{bytes_less}
use omegacrawl.Localize.Dedup.Order.{bytes_less_trans, bytes_less_total}
use omegacrawl.Changedetection.{Change}
use omegacrawl.Changedetection.Diff.{insert_change, sort_changes}

-- The first change of a selector.
unfoldable pub change_of : List ℕ → List Change → Option Change
change_of selector [] = none
change_of selector (c ∷ cs) =
    let rest = change_of selector cs in if bytes_equal c.selector selector then some c else rest

-- No selector has two changes.
abbrev pub HasNoRepeat : List Change → Type 0
HasNoRepeat [] = Unit
HasNoRepeat (c ∷ cs) = (change_of c.selector cs ≡ none) × HasNoRepeat cs

-- The change stands before all of the list.
abbrev pub IsBefore : Change → List Change → Type 0
IsBefore c l = All (λ (d : Change). bytes_less c.selector d.selector ≡ true) l

abbrev pub IsAscending : List Change → Type 0
IsAscending [] = Unit
IsAscending (c ∷ cs) = IsBefore c cs × IsAscending cs

change_of-insert_change :
    (c : Change) (s : List ℕ) (l : List Change)
    → change_of c.selector l ≡ none
    → change_of s (insert_change c l) ≡ (if bytes_equal c.selector s then some c else change_of s l)
unfolding change_of insert_change
change_of-insert_change c s [] f = refl
change_of-insert_change c s (d ∷ l) f = ground (
  arith,
  change_of-insert_change c s l,
  bytes_equal_iff d.selector s,
  bytes_equal_iff d.selector c.selector,
  bytes_equal_iff c.selector s,
)

IsBefore-trans :
    (c d : Change) (l : List Change)
    → bytes_less c.selector d.selector ≡ true
    → IsBefore d l
    → IsBefore c l
IsBefore-trans c d [] h b = tt
IsBefore-trans c d (e ∷ l) h (k, b) =
    (bytes_less_trans c.selector d.selector e.selector h k, IsBefore-trans c d l h b)

IsBefore-insert_change :
    (d c : Change) (l : List Change)
    → bytes_less d.selector c.selector ≡ true
    → IsBefore d l
    → IsBefore d (insert_change c l)
unfolding insert_change
IsBefore-insert_change d c [] h b = (h, tt)
IsBefore-insert_change d c (e ∷ l) h (k, b) = elim (Bool-cases (bytes_less c.selector e.selector)) [
  | inl t ↦ rw (insert_change, t) (h, (k, b))
  | inr t ↦ rw (insert_change, t) (k, IsBefore-insert_change d c l h b)
]

insert_change-IsAscending :
    (c : Change) (l : List Change)
    → change_of c.selector l ≡ none
    → IsAscending l
    → IsAscending (insert_change c l)
unfolding insert_change change_of
insert_change-IsAscending c [] f a = (tt, tt)
insert_change-IsAscending c (d ∷ l) f (b, a) =
    elim (Bool-cases (bytes_less c.selector d.selector)) [
      | inl t ↦ rw (insert_change, t) ((t, IsBefore-trans c d l t b), (b, a))
      | inr t ↦
          let fresh : change_of c.selector l ≡ none = ground arith in
          let later : bytes_less d.selector c.selector ≡ true =
            elim (Bool-cases (bytes_less d.selector c.selector)) [
              | inl k ↦ k
              | inr k ↦
                  let same = bytes_less_total c.selector d.selector t k in
                  ground (arith, bytes_equal_iff d.selector c.selector, same)
            ] in
          rw (insert_change, t)
            (IsBefore-insert_change d c l later b, insert_change-IsAscending c l fresh a)
    ]

pub change_of-sort_changes :
    (s : List ℕ) (l : List Change) → HasNoRepeat l → change_of s (sort_changes l) ≡ change_of s l
unfolding sort_changes change_of
change_of-sort_changes s [] n = refl
change_of-sort_changes s (c ∷ l) (f, n) =
    change_of-insert_change c s (sort_changes l) (change_of-sort_changes c.selector l n ∙ f)
    ∙ rw (change_of-sort_changes s l n) refl

pub sort_changes-IsAscending : (l : List Change) → HasNoRepeat l → IsAscending (sort_changes l)
unfolding sort_changes
sort_changes-IsAscending [] n = tt
sort_changes-IsAscending (c ∷ l) (f, n) =
    insert_change-IsAscending c (sort_changes l) (change_of-sort_changes c.selector l n ∙ f)
      (sort_changes-IsAscending l n)
