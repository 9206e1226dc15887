-- ===== src/Crawler/Downloader.antt =====
-- internal/crawler/asset_downloader.go: the order of the requests, the download of one, and the batch as
-- steps of the goroutines. Texts are their bytes; net/http is `fetch`.
use omegacrawl.Base.{
  ℕ, zero, suc, ◌+◌, ◌*◌, ◌/◌, ◌<◌, ◌≤◌, ◌≡◌, Bool, true, false, ◌||◌, List, [], ◌∷◌, ◌++◌, Option,
  none, some, String, if◌then◌else◌, ltb, ◌==◌, length,
}
use omegacrawl.Base.Bytes.{insert}
use omegacrawl.Base.Int.{ℤ, not_positive, pos_part}
use omegacrawl.Errors.Classify.{codes}
use omegacrawl.Robots.Match.{has_prefix}
pub mod Sorted
pub mod Sound
pub mod Outcomes
pub mod Collected
pub mod Progress
mod Examples

pub record AssetDownloadRequest : Type 0 where
  pub url : List ℕ
  pub referer : List ℕ
  pub html_dir : List ℕ
  pub mime_type : List ℕ
  pub headers : List (List ℕ × List ℕ)
  pub priority : ℕ

abbrev critical_types : List String
critical_types =
    "text/css" ∷ "application/javascript" ∷ "text/javascript" ∷ "application/x-javascript" ∷ "font/"
    ∷ "image/" ∷ []

-- The loop of `isCriticalResource`.
unfoldable pub has_critical : List ℕ → List String → Bool
has_critical mime_type [] = false
has_critical mime_type (t ∷ ts) = has_prefix mime_type (codes t) || has_critical mime_type ts

-- `isCriticalResource`
unfoldable pub is_critical_resource : List ℕ → Bool
unfolding has_critical
is_critical_resource mime_type = has_critical mime_type critical_types

-- What `DownloadAssets` reads of a captured resource.
pub record Resource : Type 0 where
  pub url : List ℕ
  pub mime_type : List ℕ
  pub headers : List (List ℕ × List ℕ)

-- The requests of `DownloadAssets`, in the order of the map of resources.
unfoldable pub build_requests : List ℕ → List ℕ → List Resource → List AssetDownloadRequest
unfolding is_critical_resource
build_requests page_url html_dir [] = []
build_requests page_url html_dir (r ∷ resources) =
    record {
      url = r.url;
      referer = page_url;
      html_dir = html_dir;
      mime_type = r.mime_type;
      headers = r.headers;
      priority = if is_critical_resource r.mime_type then 10 else 0;
    }
    ∷ build_requests page_url html_dir resources

-- The inner loop of the sort: the request in front, exchanged with each later one of a higher priority.
unfoldable pub exchange :
    AssetDownloadRequest
    → List AssetDownloadRequest
    → AssetDownloadRequest × List AssetDownloadRequest
exchange front [] = (front, [])
exchange front (r ∷ rest) =
    let higher = ltb front.priority r.priority in
    let (first, others) = exchange (if higher then r else front) rest in
    (first, (if higher then front else r) ∷ others)

-- The outer loop, with a round for each place.
unfoldable pub sort_rounds : ℕ → List AssetDownloadRequest → List AssetDownloadRequest
unfolding exchange
sort_rounds zero requests = requests
sort_rounds (suc rounds) [] = []
sort_rounds (suc rounds) (r ∷ rest) =
    let (first, others) = exchange r rest in first ∷ sort_rounds rounds others

unfoldable pub sort_requests : List AssetDownloadRequest → List AssetDownloadRequest
unfolding sort_rounds
sort_requests requests = sort_rounds (length requests) requests

-- What net/http gives for a request.
pub data Fetched : Type 0 where
  bad_request : Fetched
  no_response : Fetched
  response : ℕ → Option (List ℕ) → Fetched

pub data DownloadError : Type 0 where
  failed_to_create_request : DownloadError
  request_failed : DownloadError
  http_status : ℕ → DownloadError
  failed_to_read_body : DownloadError

pub record AssetDownloadResult : Type 0 where
  pub request : AssetDownloadRequest
  pub body : List ℕ
  pub error : Option DownloadError
  pub size : ℕ
  pub duration : ℕ
  pub status_code : ℕ

abbrev failure : AssetDownloadRequest → DownloadError → ℕ → ℕ → AssetDownloadResult
failure req e status duration = record {
  request = req;
  body = [];
  error = some e;
  size = 0;
  duration = duration;
  status_code = status;
}

-- `downloadAsset`, with the time that it took.
unfoldable pub download_asset :
    (AssetDownloadRequest → Fetched × ℕ) → AssetDownloadRequest → AssetDownloadResult
download_asset fetch req =
    let (fetched, duration) = fetch req in
    elim fetched [
      | bad_request ↦ failure req failed_to_create_request 0 0
      | no_response ↦ failure req request_failed 0 duration
      | response status body ↦
          if status == 200
          then elim body [
            | none ↦ failure req failed_to_read_body status duration
            | some b ↦ record {
              request = req;
              body = b;
              error = none;
              size = length b;
              duration = duration;
              status_code = status;
            }
          ]
          else failure req (http_status status) status duration
    ]

-- `Execute` leaves the number of requests at 0: only `Submit` counts them.
pub record BatchDownloadStats : Type 0 where
  pub total_requests : ℕ
  pub completed : ℕ
  pub failed : ℕ
  pub total_bytes : ℕ
  pub total_duration : ℕ
  pub avg_duration : ℕ

-- The worker's update of the statistics.
unfoldable pub count_result : BatchDownloadStats → AssetDownloadResult → BatchDownloadStats
count_result s r = elim r.error [
  | some e ↦ record s { completed = s.completed + 1; failed = s.failed + 1 }
  | none ↦ record s {
    completed = s.completed + 1;
    total_bytes = s.total_bytes + r.size;
    total_duration = s.total_duration + r.duration;
    avg_duration = (s.total_duration + r.duration) / (s.completed + 1);
  }
]

-- `workerCount`, 16 where it is not positive; each channel holds four times as many.
unfoldable pub worker_count : ℤ → ℕ
worker_count n = if not_positive n then 16 else pos_part n

-- A batch of `Execute`: the requests to submit, those in the channel `queue`, those that workers
-- download, the results that workers send, those in the channel `results`, those that `Execute` has
-- received, the latest first (`completed` is their number), the map of results by URL, and the
-- statistics.
pub record Batch : Type 0 where
  pub pending : List AssetDownloadRequest
  pub queue : List AssetDownloadRequest
  pub downloading : List AssetDownloadRequest
  pub sending : List AssetDownloadResult
  pub results : List AssetDownloadResult
  pub received : List AssetDownloadResult
  pub collected : List (List ℕ × AssetDownloadResult)
  pub stats : BatchDownloadStats

abbrev pub started : List AssetDownloadRequest → Batch
started requests = record {
  pending = requests;
  queue = [];
  downloading = [];
  sending = [];
  results = [];
  received = [];
  collected = [];
  stats = record {
    total_requests = 0;
    completed = 0;
    failed = 0;
    total_bytes = 0;
    total_duration = 0;
    avg_duration = 0;
  };
}

module _ (fetch : AssetDownloadRequest → Fetched × ℕ) (workers : ℕ) where
  -- A step of a goroutine, with no context done: `Execute` submits every request before it collects
  -- the first result.
  pub data Step : Batch → Batch → Type 0 where
    submits :
        {s t : Batch} (r : AssetDownloadRequest) (rest : List AssetDownloadRequest)
        → s.pending ≡ r ∷ rest
        → length s.queue < workers * 4
        → t ≡ record s { pending = rest; queue = s.queue ++ r ∷ [] }
        → Step s t
    takes :
        {s t : Batch} (r : AssetDownloadRequest) (rest : List AssetDownloadRequest)
        → s.queue ≡ r ∷ rest
        → length s.downloading + length s.sending < workers
        → t ≡ record s { queue = rest; downloading = r ∷ s.downloading }
        → Step s t
    downloads :
        {s t : Batch} (before after : List AssetDownloadRequest) (r : AssetDownloadRequest)
        → s.downloading ≡ before ++ r ∷ after
        → t ≡ record s {
          downloading = before ++ after;
          sending = download_asset fetch r ∷ s.sending;
          stats = count_result s.stats (download_asset fetch r);
        }
        → Step s t
    sends :
        {s t : Batch} (before after : List AssetDownloadResult) (r : AssetDownloadResult)
        → s.sending ≡ before ++ r ∷ after
        → length s.results < workers * 4
        → t ≡ record s { sending = before ++ after; results = s.results ++ r ∷ [] }
        → Step s t
    collects :
        {s t : Batch} (r : AssetDownloadResult) (rest : List AssetDownloadResult)
        → s.pending ≡ []
        → s.results ≡ r ∷ rest
        → t ≡ record s {
          results = rest;
          received = r ∷ s.received;
          collected = insert r.request.url r s.collected;
        }
        → Step s t

  pub data Reaches : Batch → Batch → Type 0 where
    stays : {s : Batch} → Reaches s s
    goes : {s t u : Batch} → Step s t → Reaches t u → Reaches s u
