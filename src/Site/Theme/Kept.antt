-- ===== src/Site/Theme/Kept.antt =====
-- platform-content-handler.js, lines 35-85: the dark mode that is chosen stays, the library of the
-- samples is asked for its theme, and no instance is lost.
use mathlib.Core.List.{append_assoc, append-nil}
use arrow_resilience_kit.Base.{
  ◌≡◌, refl, sym, ap, ◌∙◌, Bool, true, false, not, Option, none, some, List, [], ◌∷◌, ◌++◌,
}
use arrow_resilience_kit.Site.Theme.{
  SamplesTheme, Theme, head_script, init_playground, theme_of, toggle_theme, dark_mode_switch,
  shown, load, Event, clicked, handed_over, tagged, handle, run,
}

-- The theme that the library is asked for in a mode.
abbrev chosen : Bool → Bool → Option SamplesTheme
chosen false dark = none
chosen true dark = some (theme_of dark)

chosen-false : (enabled dark : Bool) → enabled ≡ false → chosen enabled dark ≡ none
chosen-false false dark e = refl
chosen-false true dark e = cc e

module _ {I : Type 0} where
  -- The library was last asked for the theme of the mode, and each instance that it handed over is
  -- destroyed or in use.
  record Follows (enabled : Bool) (s : Theme I) : Type 0 where
    themed : s.samples_theme ≡ chosen enabled s.html_dark
    in_use : s.created ≡ s.destroyed ++ s.instances

  init_playground-Follows :
      (enabled dark : Bool) (s : Theme I)
      → s.html_dark ≡ dark
      → (enabled ≡ false → s.samples_theme ≡ none)
      → s.created ≡ s.destroyed ++ s.instances
      → Follows enabled (init_playground enabled (theme_of dark) s)
  unfolding init_playground
  init_playground-Follows false dark s e n h = record { themed = n refl; in_use = h }
  init_playground-Follows true dark s e n h = record {
    themed = ap (λ d. some (theme_of d)) (sym e);
    in_use = h ∙ sym (append-nil (s.destroyed ++ s.instances));
  }

  dark-init_playground :
      (enabled : Bool) (theme : SamplesTheme) (s : Theme I)
      → (init_playground enabled theme s).html_dark ≡ s.html_dark
  unfolding init_playground
  dark-init_playground false theme s = refl
  dark-init_playground true theme s = refl

  dark-dark_mode_switch :
      (enabled os : Bool) (s : Theme I) → (dark_mode_switch enabled os s).html_dark ≡ s.html_dark
  unfolding dark_mode_switch
  dark-dark_mode_switch enabled os s = dark-init_playground enabled _ s

  load-Follows :
      (enabled os : Bool) (samples : List Bool) (storage : Option Bool)
      → Follows enabled (load enabled os samples storage)
  unfolding load dark_mode_switch head_script
  load-Follows enabled os samples none =
      init_playground-Follows enabled os (shown os samples none) refl (λ _. refl) refl
  load-Follows enabled os samples (some saved) =
      init_playground-Follows enabled saved (shown os samples (some saved)) refl (λ _. refl) refl

  toggle-Follows :
      (enabled : Bool) (s : Theme I) → Follows enabled s → Follows enabled (toggle_theme enabled s)
  unfolding toggle_theme
  toggle-Follows enabled s h =
      let k =
        init_playground-Follows enabled (not s.html_dark) (record s { html_dark = not s.html_dark })
          refl (λ e. h.themed ∙ chosen-false enabled s.html_dark e) h.in_use in
      record { themed = k.themed; in_use = k.in_use }

  handle-Follows :
      (enabled : Bool) (event : Event I) (s : Theme I)
      → Follows enabled s
      → Follows enabled (handle enabled event s)
  unfolding handle
  handle-Follows enabled clicked s h = toggle-Follows enabled s h
  handle-Follows enabled (handed_over i) s h = record {
    themed = h.themed;
    in_use = ap (λ c. c ++ i ∷ []) h.in_use ∙ append_assoc s.destroyed s.instances (i ∷ []);
  }
  handle-Follows enabled (tagged tags) s h = record { themed = h.themed; in_use = h.in_use }

  run-Follows :
      (enabled : Bool) (events : List (Event I)) (s : Theme I)
      → Follows enabled s
      → Follows enabled (run enabled events s)
  unfolding run
  run-Follows enabled [] s h = h
  run-Follows enabled (event ∷ events) s h =
      run-Follows enabled events (handle enabled event s) (handle-Follows enabled event s h)

  toggle-stored :
      (enabled : Bool) (s : Theme I)
      → (toggle_theme enabled s).storage ≡ some (toggle_theme enabled s).html_dark
  unfolding toggle_theme
  toggle-stored enabled s = ap some (
      sym (
        dark-init_playground enabled (theme_of (not s.html_dark))
          (record s { html_dark = not s.html_dark })))

  handle-stored :
      (enabled : Bool) (event : Event I) (s : Theme I)
      → s.storage ≡ some s.html_dark
      → (handle enabled event s).storage ≡ some (handle enabled event s).html_dark
  unfolding handle
  handle-stored enabled clicked s h = toggle-stored enabled s
  handle-stored enabled (handed_over i) s h = h
  handle-stored enabled (tagged tags) s h = h

  run-stored :
      (enabled : Bool) (events : List (Event I)) (s : Theme I)
      → s.storage ≡ some s.html_dark
      → (run enabled events s).storage ≡ some (run enabled events s).html_dark
  unfolding run
  run-stored enabled [] s h = h
  run-stored enabled (event ∷ events) s h =
      run-stored enabled events (handle enabled event s) (handle-stored enabled event s h)

  -- The mode is stored once a click has come.
  clicked-stored :
      (enabled : Bool) (before after : List (Event I)) (s : Theme I)
      → (run enabled (before ++ clicked ∷ after) s).storage
        ≡ some (run enabled (before ++ clicked ∷ after) s).html_dark
  unfolding run handle
  clicked-stored enabled [] after s =
      run-stored enabled after (toggle_theme enabled s) (toggle-stored enabled s)
  clicked-stored enabled (event ∷ before) after s =
      clicked-stored enabled before after (handle enabled event s)

  -- A page is loaded, the button is clicked at least once, and the library of the samples, if the
  -- pages have it, hands over instances and tags samples at any times, also of an earlier call
  -- after a later click. Then a load of a page with any samples shows the same mode and asks the
  -- library for the same theme, whatever the system prefers then; and every instance that the
  -- library handed over is destroyed or among those that the next click destroys.
  pub clicks-kept :
      (enabled os os' : Bool) (samples samples' : List Bool) (storage : Option Bool)
      (before after : List (Event I))
      → ((load {I = I} enabled os' samples'
            (run enabled
              (before ++ clicked ∷ after)
              (load enabled os samples storage)).storage).html_dark
          ≡ (run enabled (before ++ clicked ∷ after) (load enabled os samples storage)).html_dark)
        × ((load {I = I} enabled os' samples'
              (run enabled
                (before ++ clicked ∷ after)
                (load enabled os samples storage)).storage).samples_theme
            ≡ (run enabled
                (before ++ clicked ∷ after)
                (load enabled os samples storage)).samples_theme)
        × ((run enabled (before ++ clicked ∷ after) (load enabled os samples storage)).created
            ≡ (run enabled (before ++ clicked ∷ after) (load enabled os samples storage)).destroyed
              ++ (run enabled
                  (before ++ clicked ∷ after)
                  (load enabled os samples storage)).instances)
  unfolding load head_script
  clicks-kept enabled os os' samples samples' storage before after =
      let s0 = load enabled os samples storage in
      let s = run enabled (before ++ clicked ∷ after) s0 in
      let h =
        run-Follows enabled (before ++ clicked ∷ after) s0
          (load-Follows enabled os samples storage) in
      let dark =
        dark-dark_mode_switch enabled os' (shown os' samples' s.storage)
        ∙ ap (head_script os') (clicked-stored enabled before after s0) in
      (
        dark,
        (load-Follows enabled os' samples' s.storage).themed
            ∙ ap (chosen enabled) dark
            ∙ sym h.themed,
        h.in_use,
      )
