-- ===== src/Util/Lru/Refines.antt =====
-- internal/util/lru_cache.go and lru_set.go: the caches against a list of entries, the most recently
-- used first.
use mathlib.Core.Path.{subst, subst₂}
use mathlib.Core.List.{append-nil}
use omegacrawl.Base.{
  ℕ, zero, suc, ◌<◌, ◌≤◌, ◌≡◌, ◌≢◌, refl, sym, ap, ◌∙◌, List, [], ◌∷◌, ◌++◌, none, some, String,
  All, arith, length, take, ltb, inl, inr, Bool-cases, if◌then◌else◌,
}
use omegacrawl.Base.Dict
use omegacrawl.Util.Lru.{Lru, write, move_to_head, insert_new, remove_lru}
use omegacrawl.Util.Lru.Spec.{promote}
use omegacrawl.Util.Lru.Links.{write_self}
use omegacrawl.Util.Lru.Ring.{All-drop, without, with_front}
use omegacrawl.Util.Lru.Entries.{
  keyed, keyed-write, vals, keyed-drop, split_at_key, delete-vals, vals-write,
}
use omegacrawl.Util.Lru.Holds.{Holds, moved, move_to_head-Holds, remove_lru-Holds, length-drop}
use omegacrawl.Util.Lru.Insert.{allocated, allocated-Holds, not_fresh}

-- A list that is not empty has a last element.
unsnoc :
    (x : ℕ) (l : List ℕ) → (us : List ℕ) × (a : ℕ) × (x ∷ l ≡ us ++ a ∷ []) × (length us ≡ length l)
unsnoc x [] = ([], x, refl, refl)
unsnoc x (y ∷ l) = let (us, a, e, n) = unsnoc y l in (x ∷ us, a, ap (λ m. x ∷ m) e, ap suc n)

pub take_all {ℓ} : {A : Type ℓ} (n : ℕ) (l : List A) → length l ≤ n → take n l ≡ l
take_all zero [] h = refl
take_all zero (x ∷ l) h = absurd (omega (arith, h))
take_all (suc n) [] h = refl
take_all (suc n) (x ∷ l) h = ap (λ m. x ∷ m) (take_all n l (omega (arith, h)))

module _ {V : Type 0} where
  abbrev pub entries : Lru V → List ℕ → List (String × V)
  entries c ns = vals c.value_of (keyed c.key_of ns)

  pub length-entries :
      (f : ℕ → V) (g : ℕ → String) (ns : List ℕ) → length (vals f (keyed g ns)) ≡ length ns
  length-entries f g [] = refl
  length-entries f g (a ∷ ns) = ap suc (length-entries f g ns)

  take-entries :
      (f : ℕ → V) (g : ℕ → String) (us : List ℕ) (a : ℕ)
      → take (length us) (vals f (keyed g (us ++ a ∷ []))) ≡ vals f (keyed g us)
  take-entries f g [] a = refl
  take-entries f g (u ∷ us) a = ap (λ l. (g u, f u) ∷ l) (take-entries f g us a)

  -- The cache holds the entries `r`, the most recently used first, and no more than its capacity.
  pub record IsCacheOf (limit : ℕ) (c : Lru V) (r : List (String × V)) : Type 0 where
    pub nodes : List ℕ
    pub holds : Holds c nodes
    pub room : length nodes ≤ limit
    pub some_room : 0 < limit
    pub capacity : c.capacity ≡ limit
    pub view : entries c nodes ≡ r

  -- What moving the node of a key does.
  pub record Promoted (c : Lru V) (ns : List ℕ) (k : String) (a : ℕ) : Type 0 where
    pub others : List ℕ
    pub moves : move_to_head a c ≡ some (moved a c)
    pub holds : Holds (moved a c) (a ∷ others)
    pub key : c.key_of a ≡ k
    pub rest : keyed c.key_of others ≡ Dict.delete k (keyed c.key_of ns)
    pub size : suc (length others) ≡ length ns
    pub apart : All (λ y. a ≢ y) others

  pub promoted :
      (c : Lru V) (ns : List ℕ) (k : String) (a : ℕ)
      → Holds c ns
      → Dict.lookup k c.items ≡ some a
      → Promoted c ns k a
  promoted c ns k a h e =
      let (us, vs, p, q) = split_at_key c.key_of k a ns (sym (h.index k) ∙ e) in
      let g : Holds c (us ++ a ∷ vs) = subst (Holds c) p h in
      let (m, j) = move_to_head-Holds c us a vs g in
      record {
        others = us ++ vs;
        moves = m;
        holds = j;
        key = q;
        rest =
            subst₂ (λ x m. keyed c.key_of (us ++ vs) ≡ Dict.delete x (keyed c.key_of m)) q (sym p)
              (sym (keyed-drop c.key_of us a vs g.once));
        size = sym (ap length p ∙ length-drop us a vs);
        apart =
            subst (All (λ y. a ≢ y)) (append-nil (us ++ vs))
              (All-drop (λ y. a ≢ y) (us ++ vs) c.tail [] j.ring.apart.1.0).1;
      }

  -- The moved node's entry is promoted, with the value that the node has.
  pub promoted-IsCacheOf :
      (limit : ℕ) (c : Lru V) (r : List (String × V)) (k : String) (a : ℕ) (v : V)
      → IsCacheOf limit c r
      → Dict.lookup k c.items ≡ some a
      → let d = record c { value_of = write c.value_of a v } in
        (move_to_head a d ≡ some (moved a d)) × IsCacheOf limit (moved a d) (promote k v r)
  unfolding promote
  promoted-IsCacheOf limit c r k a v h e =
      let d = record c { value_of = write c.value_of a v } in
      let n = h.holds in
      let g : Holds d h.nodes = record {
        ring = record { chain = n.ring.chain; apart = n.ring.apart; in_use = n.ring.in_use };
        index = n.index;
        once = n.once;
        dict = n.dict;
        count = n.count;
      } in
      let p = promoted d h.nodes k a g e in
      let others : vals (write c.value_of a v) (keyed c.key_of p.others) ≡ Dict.delete k r =
        vals-write c.key_of c.value_of a v p.others p.apart
        ∙ ap (vals c.value_of) p.rest
        ∙ sym (delete-vals c.value_of k (keyed c.key_of h.nodes))
        ∙ ap (Dict.delete k) h.view in
      (
        p.moves,
        record {
          nodes = a ∷ p.others;
          holds = p.holds;
          room = omega (arith, p.size, h.room);
          some_room = h.some_room;
          capacity = h.capacity;
          view = rw (p.key, write_self c.value_of a v, others) refl;
        },
      )

  allocated-view :
      (c : Lru V) (ns : List ℕ) (k : String) (v : V)
      → Holds c ns
      → entries (with_front c.fresh (allocated k v c)) (c.fresh ∷ ns) ≡ (k, v) ∷ entries c ns
  allocated-view c ns k v h =
      let ne : All (λ y. c.fresh ≢ y) ns =
        subst (All (λ y. c.fresh ≢ y)) (append-nil ns)
          (All-drop (λ y. c.fresh ≢ y) ns c.tail []
            (not_fresh c (ns ++ c.tail ∷ []) h.ring.in_use.1)).1 in
      rw
        (
          write_self c.key_of c.fresh k,
          write_self c.value_of c.fresh v,
          keyed-write c.key_of c.fresh k ns ne,
          vals-write c.key_of c.value_of c.fresh v ns ne,
        )
        refl

  -- Where there is no room for the new entry the last one goes.
  settled :
      (limit : ℕ) (d : Lru V) (x : ℕ) (ns : List ℕ) (r : List (String × V))
      → Holds d (x ∷ ns)
      → length ns ≤ limit
      → 0 < limit
      → d.capacity ≡ limit
      → entries d (x ∷ ns) ≡ r
      → (e : Lru V) × ((if ltb d.capacity (length d.items) then remove_lru d else some d) ≡ some e)
        × IsCacheOf limit e (take limit r)
  settled limit d x ns r h room some_room capacity view =
      elim (Bool-cases (ltb d.capacity (length d.items))) [
        | inl over ↦
            let (us, a, p, q) = unsnoc x ns in
            let (gone, j) = remove_lru-Holds d us a (subst (Holds d) p h) in
            let count : length d.items ≡ suc (length ns) = h.count in
            let lt : length us ≡ limit = ground (arith, over, count, capacity, room, q) in
            (
              record (without a d) { items = Dict.delete (d.key_of a) d.items },
              rw over gone,
              record {
                nodes = us;
                holds = j;
                room = omega (arith, lt);
                some_room = some_room;
                capacity = capacity;
                view =
                    sym (take-entries d.value_of d.key_of us a)
                    ∙ ap (λ m. take (length us) (entries d m)) (sym p)
                    ∙ ap (take (length us)) view
                    ∙ ap (λ m. take m r) lt;
              },
            )
        | inr fits ↦
            let count : length d.items ≡ suc (length ns) = h.count in
            let small : suc (length ns) ≤ limit = ground (arith, fits, count, capacity) in
            let size : length r ≡ suc (length ns) =
              ap length (sym view) ∙ length-entries d.value_of d.key_of (x ∷ ns) in
            (
              d,
              rw fits refl,
              record {
                nodes = x ∷ ns;
                holds = h;
                room = small;
                some_room = some_room;
                capacity = capacity;
                view = view ∙ sym (take_all limit r (omega (arith, size, small)));
              },
            )
      ]

  -- A new entry comes first.
  pub inserted :
      (limit : ℕ) (c : Lru V) (r : List (String × V)) (k : String) (v : V)
      → IsCacheOf limit c r
      → Dict.lookup k c.items ≡ none
      → (d : Lru V) × (insert_new k v c ≡ some d) × IsCacheOf limit d (take limit ((k, v) ∷ r))
  unfolding insert_new
  inserted limit c r k v h e =
      let d = with_front c.fresh (allocated k v c) in
      let (added, g) = allocated-Holds k v c h.nodes h.holds e in
      let (f, p, j) =
        settled limit d c.fresh h.nodes ((k, v) ∷ r) g h.room h.some_room h.capacity
          (allocated-view c h.nodes k v h.holds ∙ ap (λ l. (k, v) ∷ l) h.view) in
      (f, rw (insert_new, added) p, j)
