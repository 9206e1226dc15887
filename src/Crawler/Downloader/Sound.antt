-- ===== src/Crawler/Downloader/Sound.antt =====
-- internal/crawler/asset_downloader.go: what holds of a batch of downloads in every state.
use mathlib.Core.Path.{subst}
use omegacrawl.Base.{
  ℕ, ◌+◌, ◌*◌, ◌≤◌, ◌≡◌, refl, sym, ap, ◌⊎◌, inl, inr, List, [], ◌∷◌, ◌++◌, arith, length,
  length-append,
}
use omegacrawl.Crawler.Downloader.{
  AssetDownloadRequest, AssetDownloadResult, Fetched, download_asset, count_result,
  BatchDownloadStats, Batch, started, Step, submits, takes, downloads, sends, collects, Reaches,
  stays, goes,
}

-- The requests that are submitted and whose results are not collected.
abbrev pub in_flight : Batch → ℕ
in_flight s = length s.queue + length s.downloading + length s.sending + length s.results

-- How many steps are still to come.
abbrev pub work_left : Batch → ℕ
work_left s =
    5 * length s.pending
    + 4 * length s.queue
    + 3 * length s.downloading
    + 2 * length s.sending
    + length s.results

module _ (fetch : AssetDownloadRequest → Fetched × ℕ) (workers : ℕ) where
  -- What holds of each reachable batch of `total` requests: the channels and the workers are within
  -- their bounds, no request is lost, and no result is collected while requests are to be submitted.
  pub record IsSound (total : ℕ) (s : Batch) : Type 0 where
    pub queue_bound : length s.queue ≤ workers * 4
    pub worker_bound : length s.downloading + length s.sending ≤ workers
    pub results_bound : length s.results ≤ workers * 4
    pub accounted : length s.pending + in_flight s + length s.received ≡ total
    pub submits_first : (s.pending ≡ []) ⊎ (s.received ≡ [])
    pub counted : s.stats.completed ≡ length s.sending + length s.results + length s.received

  pub started-IsSound :
      (requests : List AssetDownloadRequest) → IsSound (length requests) (started requests)
  started-IsSound requests = record {
    queue_bound = omega arith;
    worker_bound = omega arith;
    results_bound = omega arith;
    accounted = omega arith;
    submits_first = inr refl;
    counted = refl;
  }

  count_result-completed :
      (s : BatchDownloadStats) (r : AssetDownloadResult)
      → (count_result s r).completed ≡ s.completed + 1
  unfolding count_result
  count_result-completed s r = ground arith

  -- One more element in the middle of a list.
  length-middle {ℓ} :
      {A : Type ℓ} (before after : List A) (r : A)
      → length (before ++ r ∷ after) ≡ length (before ++ after) + 1
  length-middle before after r =
      omega (arith, length-append before (r ∷ after), length-append before after)

  pub Step-IsSound :
      (total : ℕ) {s t : Batch} → Step fetch workers s t → IsSound total s → IsSound total t
  Step-IsSound total {s} (submits r rest p b e) h =
      let n = ap length p in
      let m = length-append s.queue (r ∷ []) in
      subst (IsSound total) (sym e) (record {
        queue_bound = omega arith;
        worker_bound = h.worker_bound;
        results_bound = h.results_bound;
        accounted = omega (arith, h.accounted);
        submits_first = elim h.submits_first [
          | inl q ↦ absurd (omega (arith, ap length q))
          | inr q ↦ inr q
        ];
        counted = h.counted;
      })
  Step-IsSound total {s} (takes r rest p b e) h =
      let n = ap length p in
      subst (IsSound total) (sym e) (record {
        queue_bound = omega (arith, h.queue_bound);
        worker_bound = omega arith;
        results_bound = h.results_bound;
        accounted = omega (arith, h.accounted);
        submits_first = h.submits_first;
        counted = h.counted;
      })
  Step-IsSound total {s} (downloads before after r p e) h =
      let n = ap length p in
      let m = length-middle before after r in
      subst (IsSound total) (sym e) (record {
        queue_bound = h.queue_bound;
        worker_bound = omega (arith, h.worker_bound);
        results_bound = h.results_bound;
        accounted = omega (arith, h.accounted);
        submits_first = h.submits_first;
        counted = omega (arith, h.counted, count_result-completed s.stats (download_asset fetch r));
      })
  Step-IsSound total {s} (sends before after r p b e) h =
      let n = ap length p in
      let m = length-middle before after r in
      let k = length-append s.results (r ∷ []) in
      subst (IsSound total) (sym e) (record {
        queue_bound = h.queue_bound;
        worker_bound = omega (arith, h.worker_bound);
        results_bound = omega arith;
        accounted = omega (arith, h.accounted);
        submits_first = h.submits_first;
        counted = omega (arith, h.counted);
      })
  Step-IsSound total {s} (collects r rest p q e) h =
      let n = ap length q in
      subst (IsSound total) (sym e) (record {
        queue_bound = h.queue_bound;
        worker_bound = h.worker_bound;
        results_bound = omega (arith, h.results_bound);
        accounted = omega (arith, h.accounted);
        submits_first = inl p;
        counted = omega (arith, h.counted);
      })

  pub Reaches-IsSound :
      (total : ℕ) {s t : Batch} → Reaches fetch workers s t → IsSound total s → IsSound total t
  Reaches-IsSound total stays h = h
  Reaches-IsSound total (goes step run) h = Reaches-IsSound total run (Step-IsSound total step h)

  -- Every step leaves less to do, so that no batch takes steps for ever.
  pub Step-work_left : {s t : Batch} → Step fetch workers s t → work_left t + 1 ≡ work_left s
  Step-work_left {s} (submits r rest p b e) =
      rw e (omega (arith, ap length p, length-append s.queue (r ∷ [])))
  Step-work_left {s} (takes r rest p b e) = rw e (omega (arith, ap length p))
  Step-work_left {s} (downloads before after r p e) =
      rw e (omega (arith, ap length p, length-middle before after r))
  Step-work_left {s} (sends before after r p b e) =
      rw e
        (omega (arith, ap length p, length-middle before after r, length-append s.results (r ∷ [])))
  Step-work_left {s} (collects r rest p q e) = rw e (omega (arith, ap length q))
