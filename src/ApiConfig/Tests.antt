-- ===== src/ApiConfig/Tests.antt =====
-- Runs of the URL construction, and instances of its theorems.
use qdmi_on_iqm.Base.{◌≡◌, refl, [], ◌∷◌, Bytes, codes, arith}
use qdmi_on_iqm.ApiConfig.{
  get_job_status, get_calibration_set_quality_metrics, ends_with_slash, strip_leading_slash,
  join_paths, format_url, url,
}
use qdmi_on_iqm.ApiConfig.Format.{url-fill, format_url_misplaced}
use qdmi_on_iqm.ApiConfig.Paths.{join_paths_one_slash}

abbrev server : Bytes
server = codes "https://iqm.fi/"

url_of_status : url server get_job_status (codes "42" ∷ []) ≡ codes "https://iqm.fi/api/v1/jobs/42"
unfolding url
url_of_status = refl

url-fill_example :
    url server get_calibration_set_quality_metrics (codes "emerald" ∷ codes "7f" ∷ [])
    ≡ join_paths server (codes "api/v1/calibration-sets/emerald/7f/metrics")
url-fill_example =
    url-fill server get_calibration_set_quality_metrics (codes "emerald" ∷ codes "7f" ∷ [])
      (omega arith)

join_paths_one_slash_example :
    (join_paths (codes "a") (codes "b") ≡ codes "a/b")
    × (join_paths (codes "a/") (codes "b") ≡ codes "a/b")
    × (join_paths (codes "a") (codes "/b") ≡ codes "a/b")
    × (join_paths (codes "a/") (codes "/b") ≡ codes "a/b")
    × (join_paths [] (codes "b") ≡ codes "b")
unfolding ends_with_slash strip_leading_slash
join_paths_one_slash_example = join_paths_one_slash (codes "a") (codes "b") refl refl refl

format_url_misplaced_example :
    format_url (codes "sets/%s/%s/metrics") (codes "x%sy" ∷ codes "7f" ∷ [])
    ≡ codes "sets/x7fy/%s/metrics"
format_url_misplaced_example =
    format_url_misplaced (codes "sets/") (codes "x") (codes "7f") (codes "y") (codes "/%s/metrics")
      (omega arith) (omega arith)
