-- ===== src/Util/Lru/Holds.antt =====
-- internal/util/lru_cache.go: the cache's nodes and its map agree, before and after the list changes.
use mathlib.Core.Path.{subst}
use text.Mathlib.TextEquality.{eq_iff}
use mathlib.Core.List.{append_assoc, append-nil}
use omegacrawl.Base.{
  ℕ, suc, ◌≡◌, ◌≢◌, refl, sym, ap, ◌∙◌, List, [], ◌∷◌, ◌++◌, some, String, All, arith, length,
  length-append,
}
use omegacrawl.Base.Dict
use omegacrawl.Sync.Laws.{Distinct}
use omegacrawl.Sync.Entries.{Distinct-delete}
use omegacrawl.Util.Lru.{Lru, move_to_head, remove_lru}
use omegacrawl.Util.Lru.Ring.{
  Ring, InUse, differs, All-drop, Apart-drop, without, with_front, remove_node-lem, without-Ring,
  add_to_head-lem, with_front-Ring, prev_of_last,
}
use omegacrawl.Util.Lru.Entries.{keyed, keyed-drop, found, keyed_front, length-delete}

-- A list with an element in it has a first one.
pub cons_view :
    (us : List ℕ) (x : ℕ) (vs : List ℕ) → (w : ℕ) × (ws : List ℕ) × (us ++ x ∷ vs ≡ w ∷ ws)
cons_view [] x vs = (x, vs, refl)
cons_view (u ∷ us) x vs = (u, us ++ x ∷ vs, refl)

pub length-drop :
    (us : List ℕ) (a : ℕ) (vs : List ℕ) → length (us ++ a ∷ vs) ≡ suc (length (us ++ vs))
length-drop [] a vs = refl
length-drop (u ∷ us) a vs = ap suc (length-drop us a vs)

module _ {V : Type 0} where
  -- The nodes `ns`, the most recently used first, are those of the map.
  pub record Holds (c : Lru V) (ns : List ℕ) : Type 0 where
    pub ring : Ring c (ns ++ c.tail ∷ [])
    pub index : (k : String) → Dict.lookup k c.items ≡ Dict.lookup k (keyed c.key_of ns)
    pub once : Distinct (keyed c.key_of ns)
    pub dict : Distinct c.items
    pub count : length c.items ≡ length ns

  abbrev pub moved : ℕ → Lru V → Lru V
  moved a c = with_front a (without a c)

  move-Ring :
      (c : Lru V) (us : List ℕ) (a w : ℕ) (ws : List ℕ)
      → Ring c (us ++ a ∷ w ∷ ws)
      → (move_to_head a c ≡ some (moved a c)) × Ring (moved a c) (a ∷ us ++ w ∷ ws)
  unfolding move_to_head
  move-Ring c us a w ws h =
      let (x, l, e) = cons_view us w ws in
      let after : Ring (without a c) (x ∷ l) =
        subst (Ring (without a c)) e (without-Ring c us a w ws h) in
      let ne : All (λ y. a ≢ y) (c.head ∷ x ∷ l) =
        subst (λ m. All (λ y. a ≢ y) (c.head ∷ m)) e
          (Apart-drop (c.head ∷ us) a (w ∷ ws) h.apart).0 in
      let used : InUse c a = (All-drop (InUse c) (c.head ∷ us) a (w ∷ ws) h.in_use).0 in
      (
        rw (move_to_head, remove_node-lem c us a w ws h)
            (add_to_head-lem (without a c) a x l after),
        subst (λ m. Ring (moved a c) (a ∷ m)) (sym e)
            (with_front-Ring (without a c) a x l after ne used),
      )

  -- Moving a node to the front never meets a nil pointer, and only reorders the nodes.
  pub move_to_head-Holds :
      (c : Lru V) (us : List ℕ) (a : ℕ) (vs : List ℕ)
      → Holds c (us ++ a ∷ vs)
      → (move_to_head a c ≡ some (moved a c)) × Holds (moved a c) (a ∷ us ++ vs)
  unfolding Dict.lookup
  move_to_head-Holds c us a vs h =
      let dropped : Dict.delete (c.key_of a) (keyed c.key_of (us ++ a ∷ vs))
          ≡ keyed c.key_of (us ++ vs) =
        keyed-drop c.key_of us a vs h.once in
      let (w, ws, e) = cons_view vs c.tail [] in
      let (p, r) = move-Ring c us a w ws (
        subst (λ m. Ring c (us ++ a ∷ m)) e
          (subst (Ring c) (append_assoc us (a ∷ vs) (c.tail ∷ [])) h.ring)) in
      (
        p,
        record {
          ring =
              subst (λ m. Ring (moved a c) (a ∷ m)) (sym (append_assoc us vs (c.tail ∷ [])))
                (subst (λ m. Ring (moved a c) (a ∷ us ++ m)) (sym e) r);
          index = λ k. h.index k ∙ keyed_front c.key_of us a vs k h.once;
          once = (
            rw
                (
                  ← dropped,
                  Dict.lookup-delete (c.key_of a) (c.key_of a) (keyed c.key_of (us ++ a ∷ vs)),
                )
                (ground (arith, eq_iff (c.key_of a) (c.key_of a))),
            subst Distinct dropped
                (Distinct-delete (c.key_of a) (keyed c.key_of (us ++ a ∷ vs)) h.once),
          );
          dict = h.dict;
          count = h.count ∙ length-drop us a vs;
        },
      )

  -- The last node and its key are dropped.
  pub remove_lru-Holds :
      (c : Lru V) (us : List ℕ) (a : ℕ)
      → Holds c (us ++ a ∷ [])
      → let d = record (without a c) { items = Dict.delete (c.key_of a) c.items } in
        (remove_lru c ≡ some d) × Holds d us
  unfolding remove_lru Dict.lookup
  remove_lru-Holds c us a h =
      let whole : Ring c (us ++ a ∷ c.tail ∷ []) =
        subst (Ring c) (append_assoc us (a ∷ []) (c.tail ∷ [])) h.ring in
      let ne : c.head ≢ a = (All-drop (λ y. c.head ≢ y) us a (c.tail ∷ []) whole.apart.0).0 in
      let e : c.prev_of c.tail ≡ a = prev_of_last c us a c.tail [] whole in
      let dropped : Dict.delete (c.key_of a) (keyed c.key_of (us ++ a ∷ [])) ≡ keyed c.key_of us =
        keyed-drop c.key_of us a [] h.once ∙ ap (keyed c.key_of) (append-nil us) in
      (
        rw (remove_lru, e, differs a c.head ne, remove_node-lem c us a c.tail [] whole)
            (ap (λ x. some (record (without a c) { items = Dict.delete (c.key_of x) c.items })) e),
        record {
          ring =
              let r = without-Ring c us a c.tail [] whole in
              record { chain = r.chain; apart = r.apart; in_use = r.in_use };
          index = λ k.
              rw
                (
                  Dict.lookup-delete (c.key_of a) k c.items,
                  ← dropped,
                  Dict.lookup-delete (c.key_of a) k (keyed c.key_of (us ++ a ∷ [])),
                  h.index k,
                )
                refl;
          once =
              subst Distinct dropped
                (Distinct-delete (c.key_of a) (keyed c.key_of (us ++ a ∷ [])) h.once);
          dict = Distinct-delete (c.key_of a) c.items h.dict;
          count =
              let n : suc (length (Dict.delete (c.key_of a) c.items)) ≡ length c.items =
                length-delete (c.key_of a) a c.items h.dict
                  (h.index (c.key_of a) ∙ found c.key_of us a [] h.once) in
              omega (arith, n, h.count, length-append us (a ∷ []));
        },
      )
