-- ===== src/Config/Pages.antt =====
-- The enabled pages: internal/config/config.go, and `EnabledPageIndex` of internal/config/rules.go.
pub mod Index
use kiosk_mate.Common.{
  ℕ, zero, suc, ◌+◌, Bool, true, false, not, ◌&&◌, ◌||◌, List, [], ◌∷◌, map, ◌==◌, if◌then◌else◌,
  length, select, get_or, Text, text_eq, trim_space, ℤ, pos, minus_one,
}
use kiosk_mate.Config.Kiosk.{KioskPage, KioskConfig}

abbrev pub is_empty : Text → Bool
is_empty [] = true
is_empty (c ∷ s) = false

abbrev pub shows : KioskPage → Bool
shows page = not page.disabled && not (is_empty (trim_space page.url))

unfoldable pub enabled_pages : KioskConfig → List KioskPage
unfolding select
enabled_pages k = select shows k.pages

enabled_urls : List KioskPage → List Text
enabled_urls [] = []
enabled_urls (page ∷ pages) =
    let rest = enabled_urls pages in
    if page.disabled || is_empty (trim_space page.url) then rest else trim_space page.url ∷ rest

plain_urls : List Text → List Text
plain_urls [] = []
plain_urls (url ∷ urls) =
    let rest = plain_urls urls in if is_empty (trim_space url) then rest else trim_space url ∷ rest

unfoldable pub page_urls : KioskConfig → List Text
unfolding enabled_urls plain_urls
page_urls k =
    let urls = enabled_urls k.pages in
    elim urls [ [] ↦ plain_urls k.urls | url ∷ rest ↦ url ∷ rest ]

unfoldable pub page_count : KioskConfig → ℕ
unfolding page_urls
page_count k = length (page_urls k)

unfoldable pub index_of : Text → ℕ → List KioskPage → ℤ
index_of id i [] = minus_one
index_of id i (page ∷ pages) =
    let rest = index_of id (i + 1) pages in if text_eq page.page_id id then pos i else rest

unfoldable pub enabled_page_index : KioskConfig → Text → ℤ
unfolding index_of
enabled_page_index k page_id =
    let id = trim_space page_id in
    if is_empty id then minus_one else index_of id 0 (enabled_pages k)
