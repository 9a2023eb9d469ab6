-- ===== src/Policy.antt =====
-- internal/policy/policy.go: from the reason of a failed queue item to what is done about it. The
-- reasons are ASCII; the map defaultMatrix is total on the keys, so the answer for a missing key is
-- not needed.
pub mod Agreement
use drakkar.Prelude.{Bool, true, false, ◌||◌, if◌then◌else◌}
use drakkar.Prelude.Bytes.{Bytes, codes, contains}
use drakkar.Prelude.Text.{trim_space, to_lower}

pub data FailureKey : Type 0 where
  missing_articles unsupported_archive encrypted_archive nzb_parse_failed nzb_fetch_failed :
      FailureKey
  nzb_fetch_4xx nzb_fetch_403 preflight_failed publish_failed symlink_failed : FailureKey
  no_release_found all_candidates_rejected bad_source wrong_title : FailureKey
  interrupted_by_restart unknown : FailureKey

pub data Action : Type 0 where
  search_again blocklist_and_search retry_later do_nothing : Action

-- The branches of `Classify`, for the normalized reason.
unfoldable pub classify_normalized : Bytes → FailureKey
unfolding contains
classify_normalized r =
    if contains r (codes "status 430")
      || contains r (codes "body status 430")
      || contains r (codes "status 423")
      || contains r (codes "article not found")
      || contains r (codes "nntp_article_unavailable")
      || contains r (codes "article missing")
    then missing_articles
    else if contains r (codes "unsupported_archive")
        || contains r (codes "archive_compression")
        || contains r (codes "archive_solid")
        || contains r (codes "solid")
    then unsupported_archive
    else if contains r (codes "archive_encrypted") || contains r (codes "encrypted")
    then encrypted_archive
    else if contains r (codes "nzb_parse")
        || contains r (codes "parse nzb")
        || contains r (codes "indexer error")
    then nzb_parse_failed
    else if contains r (codes "status 403") || contains r (codes "status 429")
    then nzb_fetch_403
    else if contains r (codes "status 404")
        || contains r (codes "status 410")
        || contains r (codes "status 401")
        || contains r (codes "status 451")
    then nzb_fetch_4xx
    else if contains r (codes "nzb_fetch")
        || contains r (codes "nzb fetch")
        || contains r (codes "fetch status")
    then nzb_fetch_failed
    else if contains r (codes "preflight")
    then preflight_failed
    else if contains r (codes "publish_failed") || contains r (codes "no publishable")
    then publish_failed
    else if contains r (codes "symlink")
    then symlink_failed
    else if contains r (codes "no_release_found")
        || contains r (codes "no releases")
        || contains r (codes "no_releases")
    then no_release_found
    else if contains r (codes "all_candidates_bad_source")
    then bad_source
    else if contains r (codes "all_candidates")
    then all_candidates_rejected
    else if contains r (codes "wrong_title") || contains r (codes "wrong title")
    then wrong_title
    else if contains r (codes "bad_source")
    then bad_source
    else if contains r (codes "interrupted_by_restart")
        || contains r (codes "stale_worker")
        || contains r (codes "too_many_failures")
    then interrupted_by_restart
    else unknown

unfoldable pub classify : Bytes → FailureKey
unfolding classify_normalized to_lower trim_space
classify reason = classify_normalized (to_lower (trim_space reason))

unfoldable pub decide : FailureKey → Action
decide missing_articles = blocklist_and_search
decide unsupported_archive = blocklist_and_search
decide encrypted_archive = blocklist_and_search
decide nzb_parse_failed = blocklist_and_search
decide nzb_fetch_failed = blocklist_and_search
decide nzb_fetch_4xx = blocklist_and_search
decide nzb_fetch_403 = retry_later
decide preflight_failed = search_again
decide publish_failed = retry_later
decide symlink_failed = retry_later
decide no_release_found = do_nothing
decide all_candidates_rejected = search_again
decide bad_source = blocklist_and_search
decide wrong_title = search_again
decide interrupted_by_restart = search_again
decide unknown = do_nothing

unfoldable pub decide_from_reason : Bytes → Action
unfolding decide classify
decide_from_reason reason = decide (classify reason)
