-- ===== src/Policy/Agreement.antt =====
-- The article sources and the recovery policy read the same texts in an error.
use drakkar.Prelude.{◌≡◌, refl, false, true, some, arith, ◌||◌}
use drakkar.Prelude.Bytes.{Bytes, codes, contains}
use drakkar.Prelude.Text.{contains-normalized}
use drakkar.Nntp.Errors.{Error, missing_article_ttl, classify_cacheable_error}
use drakkar.Policy.{
  missing_articles, blocklist_and_search, classify_normalized, classify, decide, decide_from_reason,
}

missing_text :
    (m : Bytes)
    → (contains m (codes "status 430")
        || contains m (codes "status 423")
        || contains m (codes "article not found")
        || contains m (codes "article missing"))
      ≡ true
    → classify m ≡ missing_articles
unfolding classify classify_normalized
missing_text m h = ground (
  arith,
  contains-normalized m (codes "status 430") refl,
  contains-normalized m (codes "status 423") refl,
  contains-normalized m (codes "article not found") refl,
  contains-normalized m (codes "article missing") refl,
)

-- An error that the article caches hold for the full 24 hours because of its text, where no sentinel
-- is in its chain, is a failure for which the policy blocks the release and searches for another.
pub decide_from_reason-cacheable :
    (err : Error)
    → err.circuit_open ≡ false
    → err.article_missing ≡ false
    → classify_cacheable_error err ≡ some missing_article_ttl
    → decide_from_reason err.message ≡ blocklist_and_search
unfolding classify_cacheable_error decide_from_reason decide
decide_from_reason-cacheable err p q h = ground (arith, missing_text err.message)
