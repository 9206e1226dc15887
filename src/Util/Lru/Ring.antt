-- ===== src/Util/Lru/Ring.antt =====
-- internal/util/lru_cache.go: the nodes between the sentinels, as `removeValueNode` and
-- `addValueToHead` change them.
use mathlib.Core.Path.{subst, subst₃}
use omegacrawl.Base.{
  ℕ, ◌<◌, ◌≡◌, ◌≢◌, refl, sym, ap, false, List, [], ◌∷◌, ◌++◌, some, All, arith, ◌==◌,
}
use omegacrawl.Util.Lru.{Lru, write, add_to_head, remove_node}
use omegacrawl.Util.Lru.Links.{Chain, Apart, All-middle, Chain-unlink, Chain-around, Chain-link}

-- What holds of a list holds of it without one element.
pub All-drop {ℓ} :
    (P : ℕ → Type ℓ) (us : List ℕ) (a : ℕ) (vs : List ℕ)
    → All P (us ++ a ∷ vs)
    → P a × All P (us ++ vs)
All-drop P [] a vs h = h
All-drop P (u ∷ us) a vs (b, h) = let (p, q) = All-drop P us a vs h in (p, (b, q))

pub Apart-drop :
    (us : List ℕ) (a : ℕ) (vs : List ℕ)
    → Apart (us ++ a ∷ vs)
    → All (λ y. a ≢ y) (us ++ vs) × Apart (us ++ vs)
Apart-drop [] a vs h = h
Apart-drop (u ∷ us) a vs (b, h) =
    let (p, q) = All-drop (λ y. u ≢ y) us a vs b in
    let (r, s) = Apart-drop us a vs h in ((λ e. p (sym e), r), (q, s))

-- The node before one that is not the first.
place :
    (h : ℕ) (us : List ℕ) (a : ℕ) (ws : List ℕ)
    → (rs : List ℕ) × (p : ℕ) × (h ∷ us ++ a ∷ ws ≡ rs ++ p ∷ a ∷ ws)
      × (h ∷ us ++ ws ≡ rs ++ p ∷ ws)
place h [] a ws = ([], h, refl, refl)
place h (u ∷ us) a ws =
    let (rs, p, e, f) = place u us a ws in (h ∷ rs, p, ap (λ l. h ∷ l) e, ap (λ l. h ∷ l) f)

-- A node that is not nil.
not_nil : (p : ℕ) → 0 < p → (p == 0) ≡ false
not_nil p lt = ground arith

pub differs : (p q : ℕ) → q ≢ p → (p == q) ≡ false
differs p q ne = ground arith

module _ {V : Type 0} where
  -- An address of the cache: not nil, and given out before.
  abbrev pub InUse : Lru V → ℕ → Type 0
  InUse c x = (0 < x) × (x < c.fresh)

  -- The nodes `l` follow the head, and the last of them is the tail.
  pub record Ring (c : Lru V) (l : List ℕ) : Type 0 where
    pub chain : Chain c.next_of c.prev_of (c.head ∷ l)
    pub apart : Apart (c.head ∷ l)
    pub in_use : All (InUse c) (c.head ∷ l)

  -- The cache without the node, and with it in front.
  abbrev pub without : ℕ → Lru V → Lru V
  without a c = record c {
    next_of = write c.next_of (c.prev_of a) (c.next_of a);
    prev_of = write c.prev_of (c.next_of a) (c.prev_of a);
  }

  abbrev pub with_front : ℕ → Lru V → Lru V
  with_front a c = record c {
    prev_of = write (write c.prev_of a c.head) (c.next_of c.head) a;
    next_of = write (write c.next_of a (c.next_of c.head)) c.head a;
  }

  around :
      (c : Lru V) (us : List ℕ) (a w : ℕ) (ws : List ℕ)
      → Ring c (us ++ a ∷ w ∷ ws)
      → (0 < c.prev_of a) × (c.next_of a ≡ w) × (c.prev_of w ≡ a)
  around c us a w ws h =
      let (rs, p, e, f) = place c.head us a (w ∷ ws) in
      let (e0, e1, e2, e3) =
        Chain-around c.next_of c.prev_of rs p a w ws
          (subst (Chain c.next_of c.prev_of) e h.chain) in
      let (i, _) = All-middle (InUse c) rs p (a ∷ w ∷ ws) (subst (All (InUse c)) e h.in_use) in
      (rw e1 i.0, e2, e3)

  pub prev_of_last :
      (c : Lru V) (us : List ℕ) (a w : ℕ) (ws : List ℕ)
      → Ring c (us ++ a ∷ w ∷ ws)
      → c.prev_of w ≡ a
  prev_of_last c us a w ws h = (around c us a w ws h).2

  pub remove_node-lem :
      (c : Lru V) (us : List ℕ) (a w : ℕ) (ws : List ℕ)
      → Ring c (us ++ a ∷ w ∷ ws)
      → remove_node a c ≡ some (without a c)
  unfolding remove_node
  remove_node-lem c us a w ws h =
      let (i, e, _) = around c us a w ws h in
      let (j, k) = All-drop (InUse c) (c.head ∷ us) a (w ∷ ws) h.in_use in
      let (m, _) = All-middle (InUse c) (c.head ∷ us) w ws k in
      rw (not_nil (c.prev_of a) i, not_nil (c.next_of a) (rw e m.0)) refl

  pub without-Ring :
      (c : Lru V) (us : List ℕ) (a w : ℕ) (ws : List ℕ)
      → Ring c (us ++ a ∷ w ∷ ws)
      → Ring (without a c) (us ++ w ∷ ws)
  without-Ring c us a w ws h = record {
    chain =
        let (rs, p, e, f) = place c.head us a (w ∷ ws) in
        let ch : Chain c.next_of c.prev_of (rs ++ p ∷ a ∷ w ∷ ws) =
          subst (Chain c.next_of c.prev_of) e h.chain in
        let (e0, e1, e2, e3) = Chain-around c.next_of c.prev_of rs p a w ws ch in
        subst₃ (λ q v l. Chain (write c.next_of q v) (write c.prev_of v q) l) (sym e1) (sym e2)
          (sym f) (Chain-unlink c.next_of c.prev_of rs p a w ws (subst Apart e h.apart) ch);
    apart = (Apart-drop (c.head ∷ us) a (w ∷ ws) h.apart).1;
    in_use = (All-drop (InUse c) (c.head ∷ us) a (w ∷ ws) h.in_use).1;
  }

  pub add_to_head-lem :
      (c : Lru V) (a w : ℕ) (ws : List ℕ)
      → Ring c (w ∷ ws)
      → add_to_head a c ≡ some (with_front a c)
  unfolding add_to_head
  add_to_head-lem c a w ws h =
      let e : c.next_of c.head ≡ w = h.chain.0 in
      let i : 0 < w = h.in_use.1.0.0 in rw (not_nil (c.next_of c.head) (rw e i)) refl

  pub with_front-Ring :
      (c : Lru V) (a w : ℕ) (ws : List ℕ)
      → Ring c (w ∷ ws)
      → All (λ y. a ≢ y) (c.head ∷ w ∷ ws)
      → InUse c a
      → Ring (with_front a c) (a ∷ w ∷ ws)
  with_front-Ring c a w ws h n i = record {
    chain =
        subst
          (λ f.
            Chain (write (write c.next_of a f) c.head a) (write (write c.prev_of a c.head) f a)
              (c.head ∷ a ∷ w ∷ ws))
          (sym h.chain.0) (Chain-link c.next_of c.prev_of c.head a w ws h.apart n h.chain);
    apart = ((λ e. n.0 (sym e), h.apart.0), (n.1, h.apart.1));
    in_use = (h.in_use.0, (i, h.in_use.1));
  }
