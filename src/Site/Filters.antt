-- ===== src/Site/Filters.antt =====
-- platform-content-handler.js, lines 5-9, 202-267, 324-362 and 388-397: the source set filters of a
-- page. The state has `filteringContext`, the entry `inactive-filters` of the local storage, which
-- holds a list in JSON, and what the filters change on the page. `shared` says whether
-- `activeFilters` is the array `restrictedDependencies` itself, which `push` then changes too.
mod Tests
pub mod Sets
pub mod Persistence
pub mod Blocks
pub mod Display
pub mod Switch
pub mod Choice
use mathlib.Core.Logic.{ite}
use arrow_resilience_kit.Base.{
  ℕ, suc, ◌≡◌, Bool, true, false, not, Option, none, some, List, [], ◌∷◌, ◌++◌, map, ◌==◌,
  if◌then◌else◌, keep, has, get,
}
use arrow_resilience_kit.Site.Text.{Text, text_discrete, in_list, comma, split, join}
use arrow_resilience_kit.Site.Platforms.{Bookmark, Container, refresh_platform_tabs}

pub record Filterable : Type 0 where
  pub filterable_set : Text
  pub filterable_current : Text

pub record FilterButton : Type 0 where
  pub filter : Text
  pub active : Bool

-- `messages` are the elements with the message that all is filtered, the first on top.
pub record Page : Type 0 where
  pub filterables : List Filterable
  pub containers : List Container
  pub buttons : List FilterButton
  pub main_displayed : Bool
  pub messages : List ℕ
  pub sourceset_notification : Option ℕ
  pub next_element : ℕ

pub record Filters : Type 0 where
  pub dependencies : List (Text × List Text)
  pub restricted_dependencies : List Text
  pub active_filters : List Text
  pub shared : Bool
  pub inactive_filters : Option (List Text)
  pub page : Page

-- `array.filter(p => p != s)`
unfoldable pub except : Text → List Text → List Text
except s = keep (λ p. ite (text_discrete p s) false true)

unfoldable pub current_of : List Text → Text → Text
current_of active set = join comma (keep (λ v. in_list v active) (split comma set))

unfoldable pub refresh_filterable : List Text → Filterable → Filterable
unfolding current_of
refresh_filterable active elem = record elem {
  filterable_current = current_of active elem.filterable_set;
}

abbrev pub with_current : List Text → Option Text → Bookmark → Bookmark
with_current active none b = b
with_current active (some set) b = record b { filterable_current = some (current_of active set) }

-- The bookmarks of a container that have the attribute are filterable elements too.
unfoldable pub refresh_bookmark : List Text → Bookmark → Bookmark
unfolding current_of
refresh_bookmark active b = with_current active b.filterable_set b

unfoldable pub refresh_container : List Text → Container → Container
unfolding refresh_bookmark refresh_platform_tabs
refresh_container active c =
    refresh_platform_tabs (record c { row = map (refresh_bookmark active) c.row })

unfoldable pub refresh_button : List Text → FilterButton → FilterButton
refresh_button active f = record f { active = in_list f.filter active }

-- `element.remove()` on an element of the page, or none.
unfoldable pub remove_message : Option ℕ → List ℕ → List ℕ
remove_message none messages = messages
remove_message (some e) messages = keep (λ m. not (m == e)) messages

unfoldable pub refresh_no_content_notification : List Text → Page → Page
unfolding remove_message
refresh_no_content_notification [] p = record p {
  main_displayed = false;
  messages = p.next_element ∷ p.messages;
  sourceset_notification = some p.next_element;
  next_element = suc p.next_element;
}
refresh_no_content_notification (_ ∷ _) p = record p {
  main_displayed = true;
  messages = remove_message p.sourceset_notification p.messages;
}

unfoldable pub refresh_page : List Text → Page → Page
unfolding refresh_no_content_notification refresh_filterable refresh_container refresh_button
refresh_page active p = refresh_no_content_notification active (record p {
  filterables = map (refresh_filterable active) p.filterables;
  containers = map (refresh_container active) p.containers;
  buttons = map (refresh_button active) p.buttons;
})

unfoldable pub refresh_filtering : Filters → Filters
unfolding refresh_page
refresh_filtering s = record s { page = refresh_page s.active_filters s.page }

unfoldable pub filters_of : List FilterButton → List Text
filters_of [] = []
filters_of (b ∷ buttons) = b.filter ∷ filters_of buttons

unfoldable pub restrict : List Text → List (Text × List Text) → List (Text × List Text)
restrict restricted [] = []
restrict restricted ((p, ds) ∷ m) = (p, keep (λ q. in_list q restricted) ds) ∷ restrict restricted m

-- The active filters at the start, by the local storage.
unfoldable pub initial_filters : List Text → Option (List Text) → List Text
initial_filters restricted none = restricted
initial_filters restricted (some inactive) = keep (λ q. not (in_list q inactive)) restricted

abbrev pub is_none : Option (List Text) → Bool
is_none none = true
is_none (some _) = false

-- `sourceset_dependencies` is the parsed value of the variable with this name, and `cached` that of
-- the entry in the local storage.
unfoldable pub initialize_filtering : List (Text × List Text) → Option (List Text) → Page → Filters
unfolding filters_of restrict initial_filters refresh_filtering
initialize_filtering sourceset_dependencies cached page =
    let restricted = filters_of page.buttons in
    refresh_filtering (record {
      dependencies = restrict restricted sourceset_dependencies;
      restricted_dependencies = restricted;
      active_filters = initial_filters restricted cached;
      shared = is_none cached;
      inactive_filters = cached;
      page = page;
    })

abbrev pub with_inactive : Option (List Text) → Text → List Text
with_inactive none sourceset = sourceset ∷ []
with_inactive (some parsed) sourceset = parsed ++ sourceset ∷ []

unfoldable pub add_sourceset_filter_to_cache : Text → Filters → Filters
add_sourceset_filter_to_cache sourceset s = record s {
  inactive_filters = some (with_inactive s.inactive_filters sourceset);
}

abbrev pub without_inactive : Option (List Text) → Text → Option (List Text)
without_inactive none sourceset = none
without_inactive (some parsed) sourceset = some (except sourceset parsed)

unfoldable pub remove_sourceset_filter_from_cache : Text → Filters → Filters
remove_sourceset_filter_from_cache sourceset s = record s {
  inactive_filters = without_inactive s.inactive_filters sourceset;
}

-- The loop of `unfilterSourceset` over `removeSourcesetFilterFromCache`.
unfoldable pub without_all : List Text → Option (List Text) → Option (List Text)
without_all [] cached = cached
without_all (p ∷ ps) cached = without_all ps (without_inactive cached p)

unfoldable pub remove_all_from_cache : List Text → Filters → Filters
unfolding without_all
remove_all_from_cache ps s = record s { inactive_filters = without_all ps s.inactive_filters }

unfoldable pub filter_sourceset : Text → Filters → Filters
unfolding except refresh_filtering add_sourceset_filter_to_cache
filter_sourceset sourceset s = add_sourceset_filter_to_cache sourceset (
    refresh_filtering
      (record s { active_filters = except sourceset s.active_filters; shared = false }))

-- `activeFilters.push(sourceset)`
unfoldable pub push_active : Text → Filters → Filters
push_active sourceset s = record s {
  active_filters = s.active_filters ++ sourceset ∷ [];
  restricted_dependencies =
      if s.shared then s.restricted_dependencies ++ sourceset ∷ [] else s.restricted_dependencies;
}

-- `ds` is `dependencies[sourceset]`; on `undefined` the call of `concat` throws, which is `none`.
unfoldable pub reactivate : Text → Filters → Option (List Text) → Option Filters
unfolding refresh_filtering remove_all_from_cache
reactivate sourceset s none = none
reactivate sourceset s (some ds) = some (
    remove_all_from_cache (ds ++ sourceset ∷ [])
      (refresh_filtering (record s { active_filters = ds ++ sourceset ∷ []; shared = false })))

abbrev pub by_length : {A : Type 0} → List Text → A → A → A
by_length [] empty other = empty
by_length (_ ∷ _) empty other = other

unfoldable pub unfilter_sourceset : Text → Filters → Option Filters
unfolding reactivate push_active refresh_filtering remove_sourceset_filter_from_cache
unfilter_sourceset sourceset s =
    by_length s.active_filters (reactivate sourceset s (get text_discrete sourceset s.dependencies))
      (some (
        remove_sourceset_filter_from_cache sourceset (refresh_filtering (push_active sourceset s))))

-- The target of a click, with its attribute `data-filter`.
pub record Target : Type 0 where
  pub is_button : Bool
  pub data_filter : Option Text

unfoldable pub handle : Bool → Option Text → Filters → Option Filters
unfolding filter_sourceset unfilter_sourceset
handle true (some sourceset) s =
    if in_list sourceset s.active_filters
    then some (filter_sourceset sourceset s)
    else unfilter_sourceset sourceset s
handle _ _ s = some s

unfoldable pub filter_button_handler : Target → Filters → Option Filters
unfolding handle
filter_button_handler target s = handle target.is_button target.data_filter s
