-- ===== src/Config/Pages/Index.antt =====
-- Page indexes stay in range.
use kiosk_mate.Common.{
  ℕ, ◌+◌, ◌≤◌, ◌<◌, ◌≡◌, refl, List, [], ◌∷◌, length, select, Text, trim_space, pos, arith,
}
use kiosk_mate.Config.Kiosk.{KioskPage, KioskConfig}
use kiosk_mate.Config.Pages.{
  shows, enabled_pages, enabled_urls, page_count, index_of, enabled_page_index,
}

length-enabled_urls :
    (pages : List KioskPage) → length (enabled_urls pages) ≡ length (select shows pages)
unfolding enabled_urls select
length-enabled_urls [] = refl
length-enabled_urls (page ∷ pages) = ground (arith, length-enabled_urls pages)

enabled-le-page_count : (k : KioskConfig) → length (enabled_pages k) ≤ page_count k
unfolding enabled_pages page_count
enabled-le-page_count k = ground (arith, length-enabled_urls k.pages)

index_of_range :
    (id : Text) (i : ℕ) (pages : List KioskPage) {n : ℕ}
    → index_of id i pages ≡ pos n
    → (i ≤ n) × (n < i + length pages)
unfolding index_of
index_of_range id i [] e = cc
index_of_range id i (page ∷ pages) {n} e = ground (arith, index_of_range id (i + 1) pages {n = n})

-- The index of a page id is -1, or below the page count.
pub enabled_page_index-lt-page_count :
    (k : KioskConfig) (page_id : Text) {n : ℕ}
    → enabled_page_index k page_id ≡ pos n
    → n < page_count k
unfolding enabled_page_index
enabled_page_index-lt-page_count k page_id {n} e = ground (
  arith,
  index_of_range (trim_space page_id) 0 (enabled_pages k) {n = n},
  enabled-le-page_count k,
)
