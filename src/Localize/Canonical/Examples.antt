-- ===== src/Localize/Canonical/Examples.antt =====
-- Test data for the canonical keys, and the theorems applied to it.
use omegacrawl.Base.{◌≡◌, refl, true, false, []}
use omegacrawl.Errors.Classify.{codes}
use omegacrawl.Errors.Contains.{bytes_equal}
use omegacrawl.Queue.Strip.{is_listed}
use omegacrawl.Robots.Parse.{to_lower, trim_space, trim_right, trim_left}
use omegacrawl.Localize.Canonical.{
  Canonicalizer, keeps_part, is_marker, is_int, fits, digits_from, query_drop_params,
  path_drop_segment_suffix, new_canonicalizer,
}

abbrev plain : Canonicalizer
plain = new_canonicalizer [] []

gclid_is_noise : keeps_part (λ s. s) plain (codes "gclid=x") ≡ false
unfolding keeps_part new_canonicalizer is_listed query_drop_params bytes_equal to_lower
gclid_is_noise = refl

page_is_marker : is_marker (to_lower (trim_space (codes "Page"))) path_drop_segment_suffix ≡ true
unfolding is_marker path_drop_segment_suffix to_lower trim_space bytes_equal trim_right trim_left
page_is_marker = refl

three_is_int : is_int (to_lower (trim_space (codes "3"))) ≡ true
unfolding is_int to_lower trim_space trim_right trim_left fits digits_from
three_is_int = refl
