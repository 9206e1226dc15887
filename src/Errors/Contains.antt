-- ===== src/Errors/Contains.antt =====
-- internal/errors/classify.go: `contains` and `searchString`, over the bytes of the texts.
use omegacrawl.Base.{
  ℕ, zero, suc, ◌+◌, ◌-◌, ◌≤◌, ◌<◌, ◌≡◌, refl, ap, sym, ◌∙◌, ◌↔◌, Bool, true, false, ◌&&◌, List, [],
  ◌∷◌, ◌++◌, ◌==◌, leb, if◌then◌else◌, length, take, drop, arith, Bool-cases, inl, inr,
  length-append,
}

-- `a == b` on byte strings.
unfoldable pub bytes_equal : List ℕ → List ℕ → Bool
bytes_equal [] [] = true
bytes_equal [] (y ∷ ys) = false
bytes_equal (x ∷ xs) [] = false
bytes_equal (x ∷ xs) (y ∷ ys) = x == y && bytes_equal xs ys

-- The loop of `searchString` at index `i`, with `n` rounds left.
unfoldable pub search_from : ℕ → ℕ → List ℕ → List ℕ → Bool
search_from zero i s substr = false
search_from (suc n) i s substr =
    let rest = search_from n (i + 1) s substr in
    if bytes_equal (take (length substr) (drop i s)) substr then true else rest

-- The rounds are `len(s) - len(substr) + 1`, for a text at least as long.
unfoldable pub search_string : List ℕ → List ℕ → Bool
unfolding search_from
search_string s substr = search_from (length s + 1 - length substr) 0 s substr

unfoldable pub contains : List ℕ → List ℕ → Bool
unfolding search_string
contains s substr = leb (length substr) (length s) && search_string s substr

pub bytes_equal_iff : (a b : List ℕ) → (bytes_equal a b ≡ true) ↔ (a ≡ b)
unfolding bytes_equal
bytes_equal_iff [] [] = ground arith
bytes_equal_iff [] (y ∷ ys) = ground arith
bytes_equal_iff (x ∷ xs) [] = ground arith
bytes_equal_iff (x ∷ xs) (y ∷ ys) = ground (arith, bytes_equal_iff xs ys)

-- The text holds the other one between two parts.
abbrev pub Occurs : List ℕ → List ℕ → Type 0
Occurs s sub = (a : List ℕ) × (b : List ℕ) × (s ≡ a ++ (sub ++ b))

pub take-append-drop : (n : ℕ) (xs : List ℕ) → take n xs ++ drop n xs ≡ xs
take-append-drop zero xs = refl
take-append-drop (suc n) [] = refl
take-append-drop (suc n) (x ∷ xs) = rw (take-append-drop n xs)

pub take-append : (xs ys : List ℕ) → take (length xs) (xs ++ ys) ≡ xs
take-append [] ys = refl
take-append (x ∷ xs) ys = ap (◌∷◌ x) (take-append xs ys)

pub drop-append : (xs ys : List ℕ) → drop (length xs) (xs ++ ys) ≡ ys
drop-append [] ys = refl
drop-append (x ∷ xs) ys = drop-append xs ys

search_from_sound : (n i : ℕ) (s sub : List ℕ) → search_from n i s sub ≡ true → Occurs s sub
unfolding search_from
search_from_sound zero i s sub h = cc
search_from_sound (suc n) i s sub h =
    elim (Bool-cases (bytes_equal (take (length sub) (drop i s)) sub)) [
      | inl e ↦
          let here : take (length sub) (drop i s) ≡ sub = (bytes_equal_iff _ _).0 e in
          (
            take i s,
            drop (length sub) (drop i s),
            sym (take-append-drop i s)
                ∙ ap (λ t. take i s ++ t)
                    (sym (take-append-drop (length sub) (drop i s))
                      ∙ ap (λ t. t ++ drop (length sub) (drop i s)) here),
          )
      | inr e ↦ search_from_sound n (i + 1) s sub (ground arith)
    ]

search_from_complete :
    (n i k : ℕ) (s sub : List ℕ)
    → bytes_equal (take (length sub) (drop k s)) sub ≡ true
    → i ≤ k
    → k < n + i
    → search_from n i s sub ≡ true
unfolding search_from
search_from_complete zero i k s sub e p q = absurd (omega arith)
search_from_complete (suc n) i k s sub e p q = elim (Bool-cases (i == k)) [
  | inl f ↦ ground arith
  | inr f ↦
      let rest = search_from_complete n (i + 1) k s sub e (ground arith) (omega arith) in
      ground arith
]

contains_complete : (s sub a b : List ℕ) → s ≡ a ++ (sub ++ b) → contains s sub ≡ true
unfolding contains search_string
contains_complete s sub a b e =
    let len : length s ≡ length a + (length sub + length b) =
      ap length e ∙ (length-append a (sub ++ b) ∙ ap (λ n. length a + n) (length-append sub b)) in
    let at : bytes_equal (take (length sub) (drop (length a) s)) sub ≡ true =
      rw (e, drop-append a (sub ++ b), take-append sub b) ((bytes_equal_iff sub sub).1 refl) in
    let found =
      search_from_complete (length s + 1 - length sub) 0 (length a) s sub at (omega arith)
        (omega arith) in
    ground arith

contains_sound : (s sub : List ℕ) → contains s sub ≡ true → Occurs s sub
unfolding contains search_string
contains_sound s sub h =
    let found : search_from (length s + 1 - length sub) 0 s sub ≡ true = ground arith in
    search_from_sound (length s + 1 - length sub) 0 s sub found

-- `contains` answers true exactly when the text holds the other one.
pub contains_iff : (s sub : List ℕ) → (contains s sub ≡ true) ↔ Occurs s sub
contains_iff s sub = (contains_sound s sub, λ h. contains_complete s sub h.0 h.1 h.2)
