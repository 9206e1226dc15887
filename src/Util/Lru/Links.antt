-- ===== src/Util/Lru/Links.antt =====
-- internal/util/lru_cache.go: doubly linked nodes, as one is taken out or put in.
use omegacrawl.Base.{ℕ, ◌≡◌, ◌≢◌, sym, ◌∙◌, List, [], ◌∷◌, ◌++◌, All, arith}
use omegacrawl.Util.Lru.{write}

-- Each node of the list is linked to the next one, both ways.
abbrev pub Chain : (ℕ → ℕ) → (ℕ → ℕ) → List ℕ → Type 0
Chain next prev [] = Unit
Chain next prev (x ∷ []) = Unit
Chain next prev (x ∷ y ∷ l) = (next x ≡ y) × (prev y ≡ x) × Chain next prev (y ∷ l)

abbrev pub Apart : List ℕ → Type 0
Apart [] = Unit
Apart (x ∷ l) = All (λ y. x ≢ y) l × Apart l

-- Links that agree on a chain chain it too.
pub Chain-frame :
    (next prev next' prev' : ℕ → ℕ) (x : ℕ) (l : List ℕ)
    → next' x ≡ next x
    → All (λ y. next' y ≡ next y) l
    → All (λ y. prev' y ≡ prev y) l
    → Chain next prev (x ∷ l)
    → Chain next' prev' (x ∷ l)
Chain-frame next prev next' prev' x [] e f g c = tt
Chain-frame next prev next' prev' x (y ∷ l) e (f0, f) (g0, g) (p, q, c) =
    (e ∙ p, g0 ∙ q, Chain-frame next prev next' prev' y l f0 f g c)

pub write-ne : (f : ℕ → ℕ) (p v x : ℕ) → p ≢ x → write f p v x ≡ f x
write-ne f p v x n = ground arith

pub write_self {ℓ} : {A : Type ℓ} (f : ℕ → A) (p : ℕ) (v : A) → write f p v p ≡ v
write_self f p v = ground arith

pub writes-ne :
    (f : ℕ → ℕ) (p v : ℕ) (l : List ℕ) → All (λ y. p ≢ y) l → All (λ y. write f p v y ≡ f y) l
writes-ne f p v [] a = tt
writes-ne f p v (y ∷ l) (n, a) = (write-ne f p v y n, writes-ne f p v l a)

-- What is apart from a list is apart from its parts.
pub All-middle {ℓ} :
    (P : ℕ → Type ℓ) (us : List ℕ) (x : ℕ) (l : List ℕ) → All P (us ++ x ∷ l) → P x × All P l
All-middle P [] x l (a, b) = (a, b)
All-middle P (u ∷ us) x l (a, b) = All-middle P us x l b

-- What `prev.next = next; next.prev = prev` does to a chain.
pub Chain-unlink :
    (next prev : ℕ → ℕ) (us : List ℕ) (p a n : ℕ) (vs : List ℕ)
    → Apart (us ++ p ∷ a ∷ n ∷ vs)
    → Chain next prev (us ++ p ∷ a ∷ n ∷ vs)
    → Chain (write next p n) (write prev n p) (us ++ p ∷ n ∷ vs)
Chain-unlink next prev [] p a n vs (pa, (aa, (na, va))) (e0, e1, (e2, e3, c)) = (
  write_self next p n,
  write_self prev n p,
  Chain-frame next prev (write next p n) (write prev n p) n vs (write-ne next p n n pa.1.0)
      (writes-ne next p n vs pa.1.1) (writes-ne prev n p vs na) c,
)
Chain-unlink next prev (u ∷ []) p a n vs (ua, d) (e0, e1, c) = (
  write-ne next p n u (λ e. ua.0 (sym e)) ∙ e0,
  write-ne prev n p p (λ e. d.0.1.0 (sym e)) ∙ e1,
  Chain-unlink next prev [] p a n vs d c,
)
Chain-unlink next prev (u ∷ w ∷ us) p a n vs (ua, d) (e0, e1, c) =
    let (pu, _) = All-middle (λ y. u ≢ y) us p (a ∷ n ∷ vs) ua.1 in
    let (_, wr) = All-middle (λ y. w ≢ y) us p (a ∷ n ∷ vs) d.0 in
    (
      write-ne next p n u (λ e. pu (sym e)) ∙ e0,
      write-ne prev n p w (λ e. wr.1.0 (sym e)) ∙ e1,
      Chain-unlink next prev (w ∷ us) p a n vs d c,
    )

-- The links around a node of a chain.
pub Chain-around :
    (next prev : ℕ → ℕ) (us : List ℕ) (p a n : ℕ) (vs : List ℕ)
    → Chain next prev (us ++ p ∷ a ∷ n ∷ vs)
    → (next p ≡ a) × (prev a ≡ p) × (next a ≡ n) × (prev n ≡ a)
Chain-around next prev [] p a n vs (e0, e1, (e2, e3, c)) = (e0, e1, e2, e3)
Chain-around next prev (u ∷ []) p a n vs (e0, e1, c) = Chain-around next prev [] p a n vs c
Chain-around next prev (u ∷ w ∷ us) p a n vs (e0, e1, c) =
    Chain-around next prev (w ∷ us) p a n vs c

-- What `addToHead` does to the chain from the head on.
pub Chain-link :
    (next prev : ℕ → ℕ) (h a n : ℕ) (vs : List ℕ)
    → Apart (h ∷ n ∷ vs)
    → All (λ y. a ≢ y) (h ∷ n ∷ vs)
    → Chain next prev (h ∷ n ∷ vs)
    → Chain (write (write next a n) h a) (write (write prev a h) n a) (h ∷ a ∷ n ∷ vs)
Chain-link next prev h a n vs (hd, (nd, d)) (ah, (an, av)) (e0, e1, c) = (
  write_self (write next a n) h a,
  write-ne (write prev a h) n a a (λ e. an (sym e)) ∙ write_self prev a h,
  (
    write-ne (write next a n) h a a (λ e. ah (sym e)) ∙ write_self next a n,
    write_self (write prev a h) n a,
    Chain-frame next prev (write (write next a n) h a) (write (write prev a h) n a) n vs
        (write-ne (write next a n) h a n hd.0 ∙ write-ne next a n n an)
        (both next a n h a vs av hd.1) (both prev a h n a vs av nd) c,
  ),
)
  where
    both :
        (f : ℕ → ℕ) (x v y w : ℕ) (l : List ℕ)
        → All (λ z. x ≢ z) l
        → All (λ z. y ≢ z) l
        → All (λ z. write (write f x v) y w z ≡ f z) l
    both f x v y w [] s t = tt
    both f x v y w (z ∷ l) (s0, s) (t0, t) =
        (write-ne (write f x v) y w z t0 ∙ write-ne f x v z s0, both f x v y w l s t)
