-- ===== src/Site/Tabs/Tests.antt =====
-- platform-content-handler.js: clicks on the tabs of a page, and instances of the theorems on them.
use arrow_resilience_kit.Base.{◌≡◌, refl, true, false, none, some, [], ◌∷◌}
use arrow_resilience_kit.Site.Text.{Text, text_discrete, same_attribute}
use arrow_resilience_kit.Site.Tabs.{Tabs, click, init_tabs, in_sections, has_tab}
use arrow_resilience_kit.Site.Tabs.Repeated.{plain}
use arrow_resilience_kit.Site.Tabs.Restored.{AllTagged, clicks, init_tabs-restores}

abbrev types : Text
types = b't' ∷ []

abbrev functions : Text
functions = b'f' ∷ []

abbrev page : Tabs
page = record {
  sections =
      (record { is_button = true; togglable = some types; active = true }
        ∷ record { is_button = true; togglable = some functions; active = false }
        ∷ [])
      ∷ [];
  bodies =
      record { togglable = types; is_sourceset_dependent = false; active = true }
      ∷ record { togglable = functions; is_sourceset_dependent = false; active = false }
      ∷ [];
  active_tab = none;
}

init_tabs-restores_example :
    (s r : Tabs) × (init_tabs page ≡ some s)
    × (init_tabs (record page {
      active_tab = (click (some functions) (clicks (some types ∷ none ∷ []) s)).active_tab;
    })
        ≡ some r)
    × (r.sections ≡ (click (some functions) (clicks (some types ∷ none ∷ []) s)).sections)
    × (plain r.bodies ≡ plain (click (some functions) (clicks (some types ∷ none ∷ []) s)).bodies)
unfolding AllTagged in_sections has_tab same_attribute text_discrete
init_tabs-restores_example =
    init_tabs-restores page (some types ∷ none ∷ []) b'f' [] ((refl, (refl, tt)), tt) refl
