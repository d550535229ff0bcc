-- ===== src/Site/Filters/Blocks.antt =====
-- platform-content-handler.js, lines 324-337 and 364-386: the blocks of a page after a refresh.
use arrow_resilience_kit.Base.{◌≡◌, refl, ◌∙◌, true, Option, none, some, List, [], ◌∷◌, map, All}
use arrow_resilience_kit.Site.Text.{Text}
use arrow_resilience_kit.Site.Filters.{with_current, refresh_bookmark, refresh_container}
use arrow_resilience_kit.Site.Platforms.{Bookmark, Container}
use arrow_resilience_kit.Site.Platforms.Shown.{
  shows, available, ButtonRow, refresh_platform_tabs-ButtonRow, shows-available,
}

kept_button :
    (active : List Text) (set : Option Text) (b : Bookmark)
    → (with_current active set b).is_button ≡ b.is_button
kept_button active none b = refl
kept_button active (some set) b = refl

refresh_bookmark-is_button :
    (active : List Text) (bs : List Bookmark)
    → All (λ b. b.is_button ≡ true) bs
    → All (λ b. b.is_button ≡ true) (map (refresh_bookmark active) bs)
unfolding refresh_bookmark
refresh_bookmark-is_button active [] h = tt
refresh_bookmark-is_button active (b ∷ bs) h =
    (kept_button active b.filterable_set b ∙ h.0, refresh_bookmark-is_button active bs h.1)

pub refresh-ButtonRow :
    (active : List Text) (cs : List Container)
    → All ButtonRow cs
    → All ButtonRow (map (refresh_container active) cs)
unfolding refresh_container ButtonRow
refresh-ButtonRow active [] h = tt
refresh-ButtonRow active (c ∷ cs) h = (
  refresh_platform_tabs-ButtonRow (record c { row = map (refresh_bookmark active) c.row })
      (refresh_bookmark-is_button active c.row h.0),
  refresh-ButtonRow active cs h.1,
)

pub blocks_follow :
    (active : List Text) (cs : List Container)
    → All ButtonRow cs
    → All (λ c. shows c.row ≡ available c.row) (map (refresh_container active) cs)
unfolding refresh_container ButtonRow
blocks_follow active [] h = tt
blocks_follow active (c ∷ cs) h = (
  shows-available (record c { row = map (refresh_bookmark active) c.row })
      (refresh_bookmark-is_button active c.row h.0),
  blocks_follow active cs h.1,
)
