-- ===== src/Crawler/Domain.antt =====
-- internal/crawler/urls.go: `isAllowedDomain`, given the host that `getHost` finds. Texts are bytes.
use omegacrawl.Base.{
  ℕ, ◌+◌, ◌-◌, ◌≡◌, refl, sym, ap, ◌∙◌, ◌↔◌, ◌⊎◌, inl, inr, Bool, true, false, ◌&&◌, ◌||◌, List, [],
  ◌∷◌, ◌++◌, leb, if◌then◌else◌, length, drop, take, arith, Bool-cases, length-append,
}
use omegacrawl.Errors.Contains.{bytes_equal, bytes_equal_iff, take-append-drop, drop-append}

-- `strings.HasSuffix`
unfoldable pub has_suffix : List ℕ → List ℕ → Bool
has_suffix s suffix =
    leb (length suffix) (length s) && bytes_equal (drop (length s - length suffix) s) suffix

-- The loop over `AllowedDomains`.
unfoldable pub matches_any : List ℕ → List (List ℕ) → Bool
unfolding has_suffix
matches_any host [] = false
matches_any host (domain ∷ domains) =
    let rest = matches_any host domains in
    if bytes_equal host domain || has_suffix host (b'.' ∷ domain) then true else rest

unfoldable pub is_allowed_domain : List (List ℕ) → List ℕ → Bool
is_allowed_domain [] host = true
is_allowed_domain (d ∷ ds) host = matches_any host (d ∷ ds)

has_suffix_sound : (s t : List ℕ) → has_suffix s t ≡ true → (pre : List ℕ) × (s ≡ pre ++ t)
unfolding has_suffix
has_suffix_sound s t h =
    let k : ℕ = length s - length t in
    let e : drop k s ≡ t = (bytes_equal_iff (drop k s) t).0 (ground arith) in
    (take k s, sym (take-append-drop k s) ∙ ap (λ r. take k s ++ r) e)

has_suffix_complete : (pre t s : List ℕ) → s ≡ pre ++ t → has_suffix s t ≡ true
unfolding has_suffix
has_suffix_complete pre t s e =
    let n : length s ≡ length pre + length t = ap length e ∙ length-append pre t in
    let k : length s - length t ≡ length pre = omega arith in
    let at : drop (length s - length t) s ≡ t =
      ap (λ i. drop i s) k ∙ (ap (drop (length pre)) e ∙ drop-append pre t) in
    let same = (bytes_equal_iff (drop (length s - length t) s) t).1 at in ground arith

-- The host is the domain or a subdomain of it.
abbrev pub Under : List ℕ → List ℕ → Type 0
Under host domain = (host ≡ domain) ⊎ ((pre : List ℕ) × (host ≡ pre ++ (b'.' ∷ domain)))

abbrev pub UnderAny : List ℕ → List (List ℕ) → Type 0
UnderAny host [] = ⊥
UnderAny host (d ∷ ds) = Under host d ⊎ UnderAny host ds

matches_any_sound :
    (host : List ℕ) (ds : List (List ℕ)) → matches_any host ds ≡ true → UnderAny host ds
unfolding matches_any
matches_any_sound host [] h = cc
matches_any_sound host (d ∷ ds) h = elim (Bool-cases (bytes_equal host d)) [
  | inl e ↦ inl (inl ((bytes_equal_iff host d).0 e))
  | inr e ↦ elim (Bool-cases (has_suffix host (b'.' ∷ d))) [
    | inl f ↦ inl (inr (has_suffix_sound host (b'.' ∷ d) f))
    | inr f ↦ inr (matches_any_sound host ds (step e f h))
  ]
]
  where
    step :
        bytes_equal host d ≡ false
        → has_suffix host (b'.' ∷ d) ≡ false
        → matches_any host (d ∷ ds) ≡ true
        → matches_any host ds ≡ true
    step e f h = ground arith

matches_any_complete :
    (host : List ℕ) (ds : List (List ℕ)) → UnderAny host ds → matches_any host ds ≡ true
unfolding matches_any
matches_any_complete host [] u = absurd u
matches_any_complete host (d ∷ ds) (inl (inl e)) = ground (arith, (bytes_equal_iff host d).1 e)
matches_any_complete host (d ∷ ds) (inl (inr (pre, e))) =
    ground (arith, has_suffix_complete pre (b'.' ∷ d) host e)
matches_any_complete host (d ∷ ds) (inr r) = ground (arith, matches_any_complete host ds r)

-- With no configured domain every host is allowed; otherwise exactly the hosts that are one of the
-- domains or end in a dot and one of them.
pub is_allowed_domain_iff :
    (ds : List (List ℕ)) (host : List ℕ)
    → (is_allowed_domain ds host ≡ true) ↔ ((ds ≡ []) ⊎ UnderAny host ds)
unfolding is_allowed_domain
is_allowed_domain_iff [] host = (λ h. inl refl, λ h. refl)
is_allowed_domain_iff (d ∷ ds) host = (
  λ h. inr (matches_any_sound host (d ∷ ds) h),
  λ h. elim h [ inl e ↦ cc | inr u ↦ matches_any_complete host (d ∷ ds) u ],
)
