-- ===== src/Crawler/Downloader/Progress.antt =====
-- internal/crawler/asset_downloader.go: whether a batch of downloads ends.
use omegacrawl.Base.{
  ℕ, ◌+◌, ◌∙◌, ◌*◌, ◌<◌, ◌≤◌, ◌≡◌, ◌≢◌, refl, ap, ◌⊎◌, inl, inr, List, map, [], ◌∷◌, arith, length,
  Bool-cases, ltb, ltb-false→le,
}
use mathlib.Core.List.{Permᴰ}
use omegacrawl.Base.Bytes.{lookup}
use omegacrawl.Crawler.Downloader.Collected.{
  latest, results_map, lookup-results_map, Reaches-collected,
}
use omegacrawl.Crawler.Downloader.Outcomes.{received-Perm}
use omegacrawl.Crawler.Downloader.Sound.{
  in_flight, work_left, IsSound, started-IsSound, Step-IsSound, Reaches-IsSound, Step-work_left,
}
use omegacrawl.Crawler.Downloader.{
  AssetDownloadRequest, download_asset, Fetched, Batch, started, Step, submits, takes, downloads,
  sends, collects, Reaches, stays, goes,
}

List-cases {ℓ} : {A : Type ℓ} (l : List A) → (l ≡ []) ⊎ ((x : A) × (xs : List A) × (l ≡ x ∷ xs))
List-cases [] = inl refl
List-cases (x ∷ xs) = inr (x, xs, refl)

module _ (fetch : AssetDownloadRequest → Fetched × ℕ) (workers : ℕ) where
  in_flight_bound :
      (total : ℕ) (s : Batch) → IsSound fetch workers total s → in_flight s ≤ workers * 9
  in_flight_bound total s h = omega (arith, h.queue_bound, h.worker_bound, h.results_bound)

  -- The batch has all its results, or a goroutine can go on.
  abbrev GoesOn : ℕ → Batch → Type 0
  GoesOn total s =
      ((length s.received ≡ total) × (s.stats.completed ≡ total))
      ⊎ ((t : Batch) × Step fetch workers s t)

  step_GoesOn : (total : ℕ) (s t : Batch) → Step fetch workers s t → GoesOn total s
  step_GoesOn total s t step = inr (t, step)

  -- The results that workers send, and those in their channel, with nothing else to do.
  sending_GoesOn :
      (total : ℕ) (s : Batch) → 0 < workers → s.pending ≡ [] → s.sending ≢ [] → GoesOn total s
  sending_GoesOn total s w p n = elim (List-cases s.sending) [
    | inl e ↦ absurd (n e)
    | inr (r, rest, e) ↦ elim (Bool-cases (ltb (length s.results) (workers * 4))) [
      | inl b ↦ step_GoesOn total s _ (sends [] rest r e (ground arith) refl)
      | inr b ↦ elim (List-cases s.results) [
        | inl q ↦ absurd (let z = ap length q in ground arith)
        | inr (x, xs, q) ↦ step_GoesOn total s _ (collects x xs p q refl)
      ]
    ]
  ]

  -- Nothing is to be downloaded.
  drained_GoesOn :
      (total : ℕ) (s : Batch)
      → 0 < workers
      → IsSound fetch workers total s
      → s.downloading ≡ []
      → s.queue ≡ []
      → GoesOn total s
  drained_GoesOn total s w h d q = elim (List-cases s.pending) [
    | inr (r, rest, p) ↦
        step_GoesOn total s _ (submits r rest p (let z = ap length q in omega arith) refl)
    | inl p ↦ elim (List-cases s.sending) [
      | inr (r, rest, e) ↦
          sending_GoesOn total s w p (λ z. absurd (omega (arith, ap length z, ap length e)))
      | inl e ↦ elim (List-cases s.results) [
        | inr (x, xs, k) ↦ step_GoesOn total s _ (collects x xs p k refl)
        | inl k ↦
            let a = ap length p in
            let b = ap length q in
            let c = ap length d in
            let f = ap length e in
            let g = ap length k in
            inl (omega (arith, h.accounted), omega (arith, h.accounted, h.counted))
      ]
    ]
  ]

  -- Every worker sends a result, and requests wait in the channel.
  full_GoesOn :
      (total : ℕ) (s : Batch)
      → 0 < workers
      → total ≤ workers * 9
      → IsSound fetch workers total s
      → workers ≤ length s.sending
      → GoesOn total s
  full_GoesOn total s w n h b = elim (List-cases s.pending) [
    | inl p ↦ sending_GoesOn total s w p (λ z. absurd (omega (arith, ap length z)))
    | inr (r, rest, p) ↦ elim (Bool-cases (ltb (length s.queue) (workers * 4))) [
      | inl c ↦ step_GoesOn total s _ (submits r rest p (ground arith) refl)
      | inr c ↦ elim (List-cases s.sending) [
        | inl e ↦ absurd (omega (arith, ap length e))
        | inr (x, xs, e) ↦ elim (Bool-cases (ltb (length s.results) (workers * 4))) [
          | inl d ↦ step_GoesOn total s _ (sends [] xs x e (ground arith) refl)
          | inr d ↦
              let q = ltb-false→le (length s.queue) (workers * 4) c in
              let k = ltb-false→le (length s.results) (workers * 4) d in
              absurd (omega (arith, h.accounted, ap length p))
        ]
      ]
    ]
  ]

  sound_GoesOn :
      (total : ℕ) (s : Batch)
      → 0 < workers
      → total ≤ workers * 9
      → IsSound fetch workers total s
      → GoesOn total s
  sound_GoesOn total s w n h = elim (List-cases s.downloading) [
    | inr (r, rest, d) ↦ step_GoesOn total s _ (downloads [] rest r d refl)
    | inl d ↦ elim (List-cases s.queue) [
      | inl q ↦ drained_GoesOn total s w h d q
      | inr (r, rest, q) ↦ elim (Bool-cases (ltb (length s.sending) workers)) [
        | inl b ↦ step_GoesOn total s _ (takes r rest q (let z = ap length d in ground arith) refl)
        | inr b ↦ full_GoesOn total s w n h (ltb-false→le (length s.sending) workers b)
      ]
    ]
  ]

  -- The steps of a run.
  unfoldable pub run_length : {s t : Batch} → Reaches fetch workers s t → ℕ
  run_length stays = 0
  run_length (goes step run) = run_length run + 1

  run_length-work_left :
      {s t : Batch} (run : Reaches fetch workers s t) → run_length run + work_left t ≡ work_left s
  unfolding run_length
  run_length-work_left stays = omega arith
  run_length-work_left (goes step run) =
      omega (arith, run_length-work_left run, Step-work_left fetch workers step)

  -- In every state that the goroutines of a batch of at most nine requests for each worker reach, the
  -- steps taken and the work left together are five for each request, so that no run has more steps; all
  -- downloads are counted, the results received are those of the requests, one for each, in some order,
  -- and the map has for each URL the last one received of it, or a goroutine can take a step.
  pub Reaches-GoesOn :
      (requests : List AssetDownloadRequest) (s : Batch)
      → 0 < workers
      → length requests ≤ workers * 9
      → (run : Reaches fetch workers (started requests) s)
      → (run_length run + work_left s ≡ 5 * length requests)
        × (((s.stats.completed ≡ length requests)
              × Permᴰ (map (download_asset fetch) requests) s.received
              × ((url : List ℕ) → lookup url s.collected ≡ latest url s.received))
            ⊎ ((t : Batch) × Step fetch workers s t))
  unfolding results_map
  Reaches-GoesOn requests s w n run =
      let total = length requests in
      let h = Reaches-IsSound fetch workers total run (started-IsSound fetch workers requests) in
      (
        omega (arith, run_length-work_left run),
        (elim (sound_GoesOn total s w n h) [
          | inl (c, k) ↦ inl (
            k,
            received-Perm fetch workers requests s run (omega (arith, h.accounted)),
            λ url.
                ap (lookup url) (Reaches-collected fetch workers run refl)
                ∙ lookup-results_map url s.received,
          )
          | inr goes_on ↦ inr goes_on
        ]),
      )

  no_collect :
      (total : ℕ) {s t : Batch}
      → workers * 9 < total
      → IsSound fetch workers total s
      → s.received ≡ []
      → Step fetch workers s t
      → t.received ≡ []
  no_collect total n h c (submits r rest p b e) = rw e c
  no_collect total n h c (takes r rest p b e) = rw e c
  no_collect total n h c (downloads before after r p e) = rw e c
  no_collect total n h c (sends before after r p b e) = rw e c
  no_collect total {s} n h c (collects r rest p q e) =
      absurd (omega (arith, h.accounted, in_flight_bound total s h, ap length p, ap length c))

  run_no_collect :
      (total : ℕ) {s t : Batch}
      → workers * 9 < total
      → IsSound fetch workers total s
      → s.received ≡ []
      → Reaches fetch workers s t
      → t.received ≡ []
  run_no_collect total n h c stays = c
  run_no_collect total n h c (goes step run) =
      run_no_collect total n (Step-IsSound fetch workers total step h) (no_collect total n h c step)
        run

  -- A batch of more than nine requests for each worker never ends: in every state that its goroutines
  -- reach, a request is still to be submitted and no result is collected.
  pub Reaches-hangs :
      (requests : List AssetDownloadRequest) (s : Batch)
      → workers * 9 < length requests
      → Reaches fetch workers (started requests) s
      → (s.pending ≢ []) × (s.collected ≡ [])
  unfolding results_map
  Reaches-hangs requests s n run =
      let total = length requests in
      let h = Reaches-IsSound fetch workers total run (started-IsSound fetch workers requests) in
      let c = run_no_collect total n (started-IsSound fetch workers requests) refl run in
      (
        (λ p.
            absurd
              (omega (arith, h.accounted, in_flight_bound total s h, ap length p, ap length c))),
        Reaches-collected fetch workers run refl ∙ ap results_map c,
      )
