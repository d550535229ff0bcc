-- ===== src/Site/Platforms/Shown.antt =====
-- platform-content-handler.js, lines 364-386: what a block shows after a refresh.
use arrow_resilience_kit.Base.{
  sym, if_elim, Bool-cases, ◌≡◌, refl, ap, ◌∙◌, Bool, true, false, ◌&&◌, ◌||◌, Option, none, some,
  List, [], ◌∷◌, map, arith, if◌then◌else◌, All, ◌⊎◌, inl, inr,
}
use arrow_resilience_kit.Site.Platforms.{
  Bookmark, Container, mark, show, toggle_platform_dependent, is_available, first_of, look, scan,
  click_first, refresh_platform_tabs,
}

-- Whether a bookmark of the row is available and active.
pub shows : List Bookmark → Bool
shows [] = false
shows (b ∷ bs) = is_available b && b.active || shows bs

unfoldable pub available : List Bookmark → Bool
available [] = false
available (b ∷ bs) = is_available b || available bs

-- A bookmark that is available and stands in the row.
pub data AvailableIn : Bookmark → List Bookmark → Type 0 where
  here : {b : Bookmark} {bs : List Bookmark} → is_available b ≡ true → AvailableIn b (b ∷ bs)
  there : {b a : Bookmark} {bs : List Bookmark} → AvailableIn b bs → AvailableIn b (a ∷ bs)

shows-mark : {b : Bookmark} {bs : List Bookmark} → AvailableIn b bs → shows (map (mark b) bs) ≡ true
unfolding shows mark is_available
shows-mark (here h) = ground (arith, h)
shows-mark (there h) = ground (arith, shows-mark h)

true_step :
    (available : Bool) (b : Bookmark) (bs : List Bookmark) (first : Option Bookmark)
    → (scan bs (true, first)).0 ≡ true
    → (scan bs (true, first_of first b)).0 ≡ true
    → (scan bs (look available b.active b (true, first))).0 ≡ true
true_step true b bs first h k = k
true_step false b bs first h k = h

scan-true : (bs : List Bookmark) (first : Option Bookmark) → (scan bs (true, first)).0 ≡ true
unfolding scan
scan-true [] first = refl
scan-true (b ∷ bs) first =
    true_step (is_available b) b bs first (scan-true bs first) (scan-true bs (first_of first b))

-- Once an available element is found, the scan finds an active one, or keeps it.
Kept : List Bookmark → Bool → Bookmark → Bool × Option Bookmark → Type 0
Kept bs shown a found = (found.0 ≡ true) × (shown ≡ true) ⊎ (found ≡ (false, some a))

Kept-look :
    (available active : Bool) (b a : Bookmark) (bs : List Bookmark)
    → Kept bs (shows bs) a (scan bs (false, some a))
    → Kept bs
        (available && active || shows bs)
        a
        (scan bs (look available active b (false, some a)))
unfolding Kept
Kept-look true true b a bs h = inl (scan-true bs (some a), refl)
Kept-look true false b a bs h = h
Kept-look false active b a bs h = h

scan-Kept : (bs : List Bookmark) (a : Bookmark) → Kept bs (shows bs) a (scan bs (false, some a))
unfolding scan shows Kept
scan-Kept [] a = inr refl
scan-Kept (b ∷ bs) a = Kept-look (is_available b) b.active b a bs (scan-Kept bs a)

Found : List Bookmark → Bool → Bool → Bool × Option Bookmark → Type 0
Found bs shown some_available found =
    (found.0 ≡ true) × (shown ≡ true)
    ⊎ (((b : Bookmark) × (found ≡ (false, some b)) × AvailableIn b bs)
        ⊎ ((found ≡ (false, none)) × (some_available ≡ false)))

Found-look :
    (t active : Bool) (b : Bookmark) (bs : List Bookmark)
    → is_available b ≡ t
    → Kept bs (shows bs) b (scan bs (false, some b))
    → Found bs (shows bs) (available bs) (scan bs (false, none))
    → Found
        (b ∷ bs)
        (t && active || shows bs)
        (t || available bs)
        (scan bs (look t active b (false, none)))
unfolding Kept Found
Found-look true true b bs e k h = inl (scan-true bs (some b), refl)
Found-look true false b bs e (inl k) h = inl k
Found-look true false b bs e (inr k) h = inr (inl (b, k, here e))
Found-look false active b bs e k (inl h) = inl h
Found-look false active b bs e k (inr (inl (a, h, i))) = inr (inl (a, h, there i))
Found-look false active b bs e k (inr (inr h)) = inr (inr h)

scan-Found : (bs : List Bookmark) → Found bs (shows bs) (available bs) (scan bs (false, none))
unfolding scan shows available Found
scan-Found [] = inr (inr (refl, refl))
scan-Found (b ∷ bs) =
    Found-look (is_available b) b.active b bs refl (scan-Kept bs b) (scan-Found bs)

AvailableIn-is_button :
    {b : Bookmark} {bs : List Bookmark}
    → AvailableIn b bs
    → All (λ a. a.is_button ≡ true) bs
    → b.is_button ≡ true
AvailableIn-is_button (here h) all = all.0
AvailableIn-is_button (there i) all = AvailableIn-is_button i all.1

click-shows :
    (c : Container) (found : Bool × Option Bookmark)
    → All (λ b. b.is_button ≡ true) c.row
    → available c.row ≡ true
    → Found c.row (shows c.row) (available c.row) found
    → shows (click_first c found).row ≡ true
unfolding Found toggle_platform_dependent
click-shows c (true, first) all some_available (inl h) = h.1
click-shows c (false, first) all some_available (inl h) = cc (h.0)
click-shows c found all some_available (inr (inl (b, e, i))) =
    ap (λ f. shows (click_first c f).row) e
    ∙ ap
        (λ t.
          shows
            (if t
              then record { row = map (mark b) c.row; contents = map (show b.toggle) c.contents }
              else c).row)
        (AvailableIn-is_button i all)
    ∙ shows-mark i
click-shows c found all some_available (inr (inr h)) = cc (h.1, some_available)

refresh_platform_tabs-shows :
    (c : Container)
    → All (λ b. b.is_button ≡ true) c.row
    → available c.row ≡ true
    → shows (refresh_platform_tabs c).row ≡ true
unfolding refresh_platform_tabs
refresh_platform_tabs-shows c all some_available =
    click-shows c (scan c.row (false, none)) all some_available (scan-Found c.row)

shows-none : (bs : List Bookmark) → available bs ≡ false → shows bs ≡ false
unfolding shows available
shows-none [] h = refl
shows-none (b ∷ bs) h = ground (arith, h, shows-none bs)

available-mark : (t : Bookmark) (bs : List Bookmark) → available (map (mark t) bs) ≡ available bs
unfolding available mark is_available
available-mark t [] = refl
available-mark t (b ∷ bs) = ap (λ r. is_available b || r) (available-mark t bs)

-- A block of which every bookmark is a button.
unfoldable pub ButtonRow : Container → Type 0
ButtonRow c = All (λ b. b.is_button ≡ true) c.row

mark-ButtonRow :
    (t : Bookmark) (bs : List Bookmark)
    → All (λ b. b.is_button ≡ true) bs
    → All (λ b. b.is_button ≡ true) (map (mark t) bs)
unfolding mark
mark-ButtonRow t [] h = tt
mark-ButtonRow t (b ∷ bs) h = (h.0, mark-ButtonRow t bs h.1)

-- A click changes neither what is available nor what is a button.
click_first-available :
    (c : Container) (found : Bool × Option Bookmark)
    → available (click_first c found).row ≡ available c.row
unfolding toggle_platform_dependent
click_first-available c (true, first) = refl
click_first-available c (false, none) = refl
click_first-available c (false, some b) =
    if_elim (λ (r : Container). available r.row ≡ available c.row) b.is_button _ _
      (λ _. available-mark b c.row) (λ _. refl)

click_first-ButtonRow :
    (c : Container) (found : Bool × Option Bookmark) → ButtonRow c → ButtonRow (click_first c found)
unfolding toggle_platform_dependent ButtonRow
click_first-ButtonRow c (true, first) h = h
click_first-ButtonRow c (false, none) h = h
click_first-ButtonRow c (false, some b) h =
    if_elim ButtonRow b.is_button _ _ (λ _. mark-ButtonRow b c.row h) (λ _. h)

pub refresh_platform_tabs-ButtonRow :
    (c : Container) → ButtonRow c → ButtonRow (refresh_platform_tabs c)
unfolding refresh_platform_tabs
refresh_platform_tabs-ButtonRow c = click_first-ButtonRow c (scan c.row (false, none))

-- After a refresh a block shows an available platform exactly when it has one.
pub shows-available :
    (c : Container)
    → ButtonRow c
    → shows (refresh_platform_tabs c).row ≡ available (refresh_platform_tabs c).row
unfolding refresh_platform_tabs ButtonRow
shows-available c all =
    let same = click_first-available c (scan c.row (false, none)) in
    elim (Bool-cases (available c.row)) [
      | inl e ↦ refresh_platform_tabs-shows c all e ∙ sym (same ∙ e)
      | inr e ↦ shows-none (refresh_platform_tabs c).row (same ∙ e) ∙ sym (same ∙ e)
    ]
