-- ===== src/Crawler/Downloader/Examples.antt =====
-- The batches of the asset downloader, at concrete inputs.
use mathlib.Core.List.{Permᴰ}
use omegacrawl.Base.{ℕ, ◌+◌, ◌≡◌, ◌≢◌, refl, List, map, ◌⊎◌, [], ◌∷◌, some, arith, replicate}
use omegacrawl.Base.Bytes.{lookup}
use omegacrawl.Crawler.Downloader.Collected.{latest}
use omegacrawl.Errors.Classify.{codes}
use omegacrawl.Robots.Match.{has_prefix}
use omegacrawl.Crawler.Downloader.{
  AssetDownloadRequest, Resource, Fetched, Reaches, Batch, Step, submits, stays, goes, started,
  build_requests, sort_requests, download_asset, count_result,
}
use omegacrawl.Crawler.Downloader.Sorted.{IsDescending, sort_requests-IsDescending}
use omegacrawl.Crawler.Downloader.Sound.{work_left}
use omegacrawl.Crawler.Downloader.Progress.{run_length, Reaches-GoesOn, Reaches-hangs}

abbrev request : ℕ → AssetDownloadRequest
request n = record {
  url = n ∷ [];
  referer = [];
  html_dir = [];
  mime_type = codes "image/png";
  headers = [];
  priority = n;
}

abbrev fetched : AssetDownloadRequest → Fetched × ℕ
fetched r = (Fetched.response 200 (some (codes "ok")), 5)

abbrev page_resources : List Resource
page_resources =
    record { url = codes "a"; mime_type = codes "text/html"; headers = [] }
    ∷ record { url = codes "b"; mime_type = codes "text/css"; headers = [] }
    ∷ record { url = codes "c"; mime_type = codes "font/woff2"; headers = [] }
    ∷ []

urls : List AssetDownloadRequest → List (List ℕ)
urls [] = []
urls (r ∷ l) = r.url ∷ urls l

-- The style sheet and the font go before the document.
sort_test :
    urls (sort_requests (build_requests (codes "p") (codes "d") page_resources))
    ≡ codes "b" ∷ codes "c" ∷ codes "a" ∷ []
unfolding urls sort_requests build_requests has_prefix
sort_test = refl

-- A failed download counts in the average's divisor.
stats_test :
    (count_result
      (record {
        total_requests = 0;
        completed = 1;
        failed = 1;
        total_bytes = 0;
        total_duration = 0;
        avg_duration = 0;
      })
      (download_asset fetched (request 1))).avg_duration
    ≡ 2
unfolding count_result download_asset
stats_test = refl

sort_requests-IsDescending_example :
    IsDescending (sort_requests (request 1 ∷ request 3 ∷ request 2 ∷ []))
    × Permᴰ
        (request 1 ∷ request 3 ∷ request 2 ∷ [])
        (sort_requests (request 1 ∷ request 3 ∷ request 2 ∷ []))
sort_requests-IsDescending_example =
    sort_requests-IsDescending (request 1 ∷ request 3 ∷ request 2 ∷ [])

abbrev nine : List AssetDownloadRequest
nine = replicate 9 (request 1)

abbrev one_submitted : List AssetDownloadRequest → Batch
one_submitted requests = record (started requests) { pending = requests; queue = request 1 ∷ [] }

abbrev first_submitted : Reaches fetched 1 (started nine) (one_submitted (replicate 8 (request 1)))
first_submitted = goes (submits (request 1) (replicate 8 (request 1)) refl (omega arith) refl) stays

Reaches-GoesOn_example :
    (run_length fetched 1 first_submitted + work_left (one_submitted (replicate 8 (request 1)))
      ≡ 45)
    × ((((one_submitted (replicate 8 (request 1))).stats.completed ≡ 9)
          × Permᴰ
              (map (download_asset fetched) nine)
              (one_submitted (replicate 8 (request 1))).received
          × ((url : List ℕ)
              → lookup url (one_submitted (replicate 8 (request 1))).collected
                ≡ latest url (one_submitted (replicate 8 (request 1))).received))
        ⊎ ((t : Batch) × Step fetched 1 (one_submitted (replicate 8 (request 1))) t))
Reaches-GoesOn_example =
    Reaches-GoesOn fetched 1 nine (one_submitted (replicate 8 (request 1))) (omega arith)
      (omega arith) first_submitted

Reaches-hangs_example :
    ((one_submitted (replicate 9 (request 1))).pending ≢ [])
    × ((one_submitted (replicate 9 (request 1))).collected ≡ [])
Reaches-hangs_example =
    Reaches-hangs fetched 1 (replicate 10 (request 1)) (one_submitted (replicate 9 (request 1)))
      (omega arith)
      (goes (submits (request 1) (replicate 9 (request 1)) refl (omega arith) refl) stays)
