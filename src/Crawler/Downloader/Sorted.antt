-- ===== src/Crawler/Downloader/Sorted.antt =====
-- internal/crawler/asset_downloader.go: the sort of the requests by priority.
use mathlib.Core.Path.{subst}
use mathlib.Core.List.{Permᴰ}
use mathlib.Core.List.Permᴰ as PermLaws
use omegacrawl.Base.{
  ℕ, zero, suc, ◌≤◌, ◌≡◌, refl, sym, ap, inl, inr, Bool-cases, true, false, List, [], ◌∷◌, All,
  arith, length, ltb, ltb→lt, ltb-false→le,
}
use omegacrawl.Crawler.Downloader.{AssetDownloadRequest, exchange, sort_rounds, sort_requests}

-- No request of the list has a higher priority than `n`.
abbrev pub IsAtMost : ℕ → List AssetDownloadRequest → Type 0
IsAtMost n l = All (λ (r : AssetDownloadRequest). r.priority ≤ n) l

abbrev pub IsDescending : List AssetDownloadRequest → Type 0
IsDescending [] = Unit
IsDescending (r ∷ l) = IsAtMost r.priority l × IsDescending l

exchange_higher :
    (front r : AssetDownloadRequest) (l : List AssetDownloadRequest)
    → ltb front.priority r.priority ≡ true
    → exchange front (r ∷ l) ≡ ((exchange r l).0, front ∷ (exchange r l).1)
unfolding exchange
exchange_higher front r l t = rw (exchange, t) refl

exchange_lower :
    (front r : AssetDownloadRequest) (l : List AssetDownloadRequest)
    → ltb front.priority r.priority ≡ false
    → exchange front (r ∷ l) ≡ ((exchange front l).0, r ∷ (exchange front l).1)
unfolding exchange
exchange_lower front r l t = rw (exchange, t) refl

-- A request exchanged to the front of the others: none of them has a higher priority, and the requests
-- are the same.
abbrev IsExchange :
    AssetDownloadRequest
    → List AssetDownloadRequest
    → AssetDownloadRequest × List AssetDownloadRequest
    → Type 0
IsExchange front l e =
    (front.priority ≤ e.0.priority)
    × IsAtMost e.0.priority e.1
    × (length e.1 ≡ length l)
    × Permᴰ (front ∷ l) (e.0 ∷ e.1)

exchange-IsExchange :
    (front : AssetDownloadRequest) (l : List AssetDownloadRequest)
    → IsExchange front l (exchange front l)
unfolding exchange
exchange-IsExchange front [] = (omega arith, tt, refl, PermLaws.refl (front ∷ []))
exchange-IsExchange front (r ∷ l) = elim (Bool-cases (ltb front.priority r.priority)) [
  | inl t ↦
      let (a, b, c, p) = exchange-IsExchange r l in
      let below : front.priority ≤ (exchange r l).0.priority =
        omega (arith, ltb→lt front.priority r.priority t) in
      subst (IsExchange front (r ∷ l)) (sym (exchange_higher front r l t))
        (below, (below, b), ap suc c, Permᴰ.trans (Permᴰ.cons refl p) (Permᴰ.swap refl refl))
  | inr t ↦
      let (a, b, c, p) = exchange-IsExchange front l in
      let below : r.priority ≤ (exchange front l).0.priority =
        omega (arith, ltb-false→le front.priority r.priority t) in
      subst (IsExchange front (r ∷ l)) (sym (exchange_lower front r l t)) (
        a,
        (below, b),
        ap suc c,
        Permᴰ.trans (Permᴰ.swap refl refl) (Permᴰ.trans (Permᴰ.cons refl p) (Permᴰ.swap refl refl)),
      )
]

Perm-IsAtMost : (n : ℕ) {k l : List AssetDownloadRequest} → Permᴰ k l → IsAtMost n k → IsAtMost n l
Perm-IsAtMost n Permᴰ.nil h = tt
Perm-IsAtMost n (Permᴰ.cons e p) (a, h) = (rw (sym e) a, Perm-IsAtMost n p h)
Perm-IsAtMost n (Permᴰ.swap e f) (a, (b, h)) = (rw (sym f) b, (rw (sym e) a, h))
Perm-IsAtMost n (Permᴰ.trans p q) h = Perm-IsAtMost n q (Perm-IsAtMost n p h)

sort_rounds-Perm : (n : ℕ) (l : List AssetDownloadRequest) → Permᴰ l (sort_rounds n l)
unfolding sort_rounds
sort_rounds-Perm zero l = PermLaws.refl l
sort_rounds-Perm (suc n) [] = Permᴰ.nil
sort_rounds-Perm (suc n) (r ∷ l) =
    let e = exchange r l in
    Permᴰ.trans (exchange-IsExchange r l).3 (Permᴰ.cons refl (sort_rounds-Perm n e.1))

sort_rounds-IsDescending :
    (n : ℕ) (l : List AssetDownloadRequest) → length l ≤ n → IsDescending (sort_rounds n l)
unfolding sort_rounds
sort_rounds-IsDescending zero [] h = tt
sort_rounds-IsDescending zero (r ∷ l) h = absurd (omega arith)
sort_rounds-IsDescending (suc n) [] h = tt
sort_rounds-IsDescending (suc n) (r ∷ l) h =
    let e = exchange r l in
    let (a, b, c, p) = exchange-IsExchange r l in
    (
      Perm-IsAtMost e.0.priority (sort_rounds-Perm n e.1) b,
      sort_rounds-IsDescending n e.1 (omega (arith, c)),
    )

-- The requests are sorted by priority, the highest first, and none is lost or added.
pub sort_requests-IsDescending :
    (requests : List AssetDownloadRequest)
    → IsDescending (sort_requests requests) × Permᴰ requests (sort_requests requests)
unfolding sort_requests
sort_requests-IsDescending requests = (
  sort_rounds-IsDescending (length requests) requests (omega arith),
  sort_rounds-Perm (length requests) requests,
)
