-- ===== src/Crawler/Overlap/Passes.antt =====
-- internal/crawler/queueing.go: which calls of `shouldQueue` that overlap pass.
use Prim.Native.String.{String}
use text.Mathlib.Text.{◌==◌}
use text.Mathlib.TextEquality.{eq_iff}
use omegacrawl.Base.{
  ℕ, zero, suc, ◌+◌, ◌≤◌, ◌≡◌, refl, ap, ◌∙◌, Bool, true, ◌&&◌, List, [], ◌∷◌, if◌then◌else◌, arith,
}
use omegacrawl.Crawler.Admit.{Filters, Policy, Dedup}
use omegacrawl.Crawler.Overlap.{
  Phase, entering, missed_exact, missed_both, added_bloom, passed, refused, Call, is_through,
  has_passed, through, passed_calls, CallEvent, begins, moves, move, move_at, happens, interleaved,
}

module _ (F : Filters) (p : Policy) where
  bloom-move :
      (total size : ℕ) (u url : String) (phase : Phase) (d : Dedup F)
      → F.has_seen u d.bloom ≡ true
      → F.has_seen u (move F p total size url phase d).1.bloom ≡ true
  unfolding move
  bloom-move total size u url entering d h = ground arith
  bloom-move total size u url missed_exact d h = ground arith
  bloom-move total size u url missed_both d h = F.has_seen-add url u d.bloom h
  bloom-move total size u url added_bloom d h = h
  bloom-move total size u url passed d h = h
  bloom-move total size u url refused d h = h

  -- Where the Bloom filter reports the URL, no call for it gets through any more.
  through-move :
      (total size : ℕ) (u url : String) (phase : Phase) (d : Dedup F)
      → F.has_seen u d.bloom ≡ true
      → (is_through (move F p total size url phase d).0 && url == u)
        ≡ (is_through phase && url == u)
  unfolding move is_through
  through-move total size u url entering d h = ground arith
  through-move total size u url missed_exact d h = ground (arith, eq_iff url u)
  through-move total size u url missed_both d h = refl
  through-move total size u url added_bloom d h = refl
  through-move total size u url passed d h = refl
  through-move total size u url refused d h = refl

  bloom-move_at :
      (i total size : ℕ) (u : String) (calls : List Call) (d : Dedup F)
      → F.has_seen u d.bloom ≡ true
      → F.has_seen u (move_at F p i total size calls d).1.bloom ≡ true
  unfolding move_at
  bloom-move_at i total size u [] d h = h
  bloom-move_at zero total size u (c ∷ calls) d h = bloom-move total size u c.url c.phase d h
  bloom-move_at (suc i) total size u (c ∷ calls) d h = bloom-move_at i total size u calls d h

  through-move_at :
      (i total size : ℕ) (u : String) (calls : List Call) (d : Dedup F)
      → F.has_seen u d.bloom ≡ true
      → through u (move_at F p i total size calls d).0 ≡ through u calls
  unfolding move_at through
  through-move_at i total size u [] d h = refl
  through-move_at zero total size u (c ∷ calls) d h =
      ap (λ b. (if b then 1 else 0) + through u calls) (through-move total size u c.url c.phase d h)
  through-move_at (suc i) total size u (c ∷ calls) d h =
      ap (λ n. (if is_through c.phase && c.url == u then 1 else 0) + n)
        (through-move_at i total size u calls d h)

  through-interleaved :
      (es : List CallEvent) (u : String) (calls : List Call) (d : Dedup F)
      → F.has_seen u d.bloom ≡ true
      → through u (interleaved F p es (calls, d)).0 ≡ through u calls
  unfolding interleaved happens through is_through
  through-interleaved [] u calls d h = refl
  through-interleaved (begins url ∷ es) u calls d h =
      through-interleaved es u (record { url = url; phase = entering } ∷ calls) d h ∙ omega arith
  through-interleaved (moves i total size ∷ es) u calls d h =
      through-interleaved es u (move_at F p i total size calls d).0
        (move_at F p i total size calls d).1 (bloom-move_at i total size u calls d h)
      ∙ through-move_at i total size u calls d h

  passed-is_through :
      (phase : Phase) (b : Bool)
      → (if has_passed phase && b then 1 else 0) ≤ (if is_through phase && b then 1 else 0)
  unfolding has_passed is_through
  passed-is_through entering b = omega arith
  passed-is_through missed_exact b = omega arith
  passed-is_through missed_both b = ground arith
  passed-is_through added_bloom b = ground arith
  passed-is_through passed b = omega arith
  passed-is_through refused b = omega arith

  passed_le_through : (u : String) (calls : List Call) → passed_calls u calls ≤ through u calls
  unfolding passed_calls through
  passed_le_through u [] = omega arith
  passed_le_through u (c ∷ calls) =
      omega (arith, passed_le_through u calls, passed-is_through c.phase (c.url == u))

  -- From the moment at which the Bloom filter reports a URL, whatever calls begin and however their steps
  -- interleave: only calls for it that are past their test of the Bloom filter by then pass, now or later.
  -- If none is, the URL passes no more, also if the exact set forgets it.
  pub passed_calls-le-through :
      (es : List CallEvent) (u : String) (calls : List Call) (d : Dedup F)
      → F.has_seen u d.bloom ≡ true
      → passed_calls u (interleaved F p es (calls, d)).0 ≤ through u calls
  passed_calls-le-through es u calls d h = omega (
    arith,
    through-interleaved es u calls d h,
    passed_le_through u (interleaved F p es (calls, d)).0,
  )

  -- A call whose steps no other interrupts.
  abbrev uninterrupted : ℕ → ℕ → List CallEvent
  uninterrupted total size =
      moves 0 total size ∷ moves 0 total size ∷ moves 0 total size ∷ moves 0 total size ∷ []

  abbrev at_phases : String → Phase → Phase → List Call
  at_phases u first second =
      record { url = u; phase = first } ∷ record { url = u; phase = second } ∷ []
