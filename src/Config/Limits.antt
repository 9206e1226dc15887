-- ===== src/Config/Limits.antt =====
-- internal/config/validate.go: the limits report nothing exactly when their conditions hold.
use omegacrawl.Base.{◌≡◌, ◌↔◌, Bool, false, not, ◌&&◌, [], ◌++◌, arith}
use omegacrawl.Base.Int.{not_positive, is_negative, int_ltb}
use omegacrawl.Config.Types.{Config}
use omegacrawl.Config.Validate.{Problem, report_if, check_limits, is_nil, is_none}
use omegacrawl.Config.Conditions.{LimitsOk}

-- All eleven tests fail where nothing is reported, and the other way round.
none_reported :
    (b0 b1 b2 b3 b4 b5 b6 b7 b8 b9 b10 : Bool) (p0 p1 p2 p3 p4 p5 p6 p7 p8 p9 p10 : Problem)
    → ((report_if b0 p0
          ++ (report_if b1 p1
              ++ (report_if b2 p2
                  ++ (report_if b3 p3
                      ++ (report_if b4 p4
                          ++ (report_if b5 p5
                              ++ (report_if b6 p6
                                  ++ (report_if b7 p7
                                      ++ (report_if b8 p8
                                          ++ (report_if b9 p9 ++ (report_if b10 p10)))))))))))
        ≡ [])
      ↔ ((b0 ≡ false)
          × (b1 ≡ false)
          × (b2 ≡ false)
          × (b3 ≡ false)
          × (b4 ≡ false)
          × (b5 ≡ false)
          × (b6 ≡ false)
          × (b7 ≡ false)
          × (b8 ≡ false)
          × (b9 ≡ false)
          × (b10 ≡ false))
none_reported b0 b1 b2 b3 b4 b5 b6 b7 b8 b9 b10 p0 p1 p2 p3 p4 p5 p6 p7 p8 p9 p10 =
    (λ h. ground (arith, h), λ h. ground (arith, h))

-- The tests of `check_limits`, all false.
abbrev NoLimitHit : Config → Type 0
NoLimitHit c =
    ((not c.manual_capture && is_nil c.seeds) ≡ false)
    × ((not c.manual_capture && not_positive c.max_depth) ≡ false)
    × ((not_positive c.max_concurrent_pages) ≡ false)
    × ((not_positive c.page_timeout) ≡ false)
    × ((is_none c.infinite_scroll) ≡ false)
    × ((is_negative c.crawl_delay) ≡ false)
    × ((not c.manual_capture && not_positive c.max_urls_per_host) ≡ false)
    × ((not c.manual_capture && not_positive c.max_total_urls) ≡ false)
    × ((is_negative c.checkpoint_interval) ≡ false)
    × ((is_negative c.min_disk_space) ≡ false)
    × ((int_ltb c.wait_strategy_timeout c.wait_timeout) ≡ false)

hit_iff : (c : Config) → NoLimitHit c ↔ LimitsOk c
hit_iff c = (
  λ h. record {
    seeds = let e = h.0 in ground arith;
    max_depth = let e = h.1 in ground arith;
    max_concurrent_pages = let e = h.2 in ground arith;
    page_timeout = let e = h.3 in ground arith;
    infinite_scroll = let e = h.4 in ground arith;
    crawl_delay = let e = h.5 in ground arith;
    max_urls_per_host = let e = h.6 in ground arith;
    max_total_urls = let e = h.7 in ground arith;
    checkpoint_interval = let e = h.8 in ground arith;
    min_disk_space = let e = h.9 in ground arith;
    wait = let e = h.10 in ground arith;
  },
  λ v. (
    (let e = v.seeds in ground arith),
    (let e = v.max_depth in ground arith),
    (let e = v.max_concurrent_pages in ground arith),
    (let e = v.page_timeout in ground arith),
    (let e = v.infinite_scroll in ground arith),
    (let e = v.crawl_delay in ground arith),
    (let e = v.max_urls_per_host in ground arith),
    (let e = v.max_total_urls in ground arith),
    (let e = v.checkpoint_interval in ground arith),
    (let e = v.min_disk_space in ground arith),
    (let e = v.wait in ground arith),
  ),
)

pub check_limits_iff : (c : Config) → (check_limits c ≡ []) ↔ LimitsOk c
unfolding check_limits
check_limits_iff c = (
  λ h. (hit_iff c).0 ((none_reported _ _ _ _ _ _ _ _ _ _ _ _ _ _ _ _ _ _ _ _ _ _).0 h),
  λ v. (none_reported _ _ _ _ _ _ _ _ _ _ _ _ _ _ _ _ _ _ _ _ _ _).1 ((hit_iff c).1 v),
)
