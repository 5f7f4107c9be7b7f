-- ===== src/Terminal/Showing.antt =====
-- What it means that characters have been put on the screen of a terminal.
use lightweight_operating_sy.Prelude.{
  false, ℕ, ◌+◌, ◌<◌, ◌≤◌, ◌≡◌, refl, ◌∙◌, List, [], ◌∷◌, ◌++◌, ◌==◌, if◌then◌else◌,
}
use lightweight_operating_sy.Screen.{Display, video, putc_on}

-- The four pages of video memory and the cursors are alike.
pub record SameScreens (d d' : Display) : Type 0 where
  pub pages : (a : ℕ) → video ≤ a → a < video + 0x4000 → d'.mem a ≡ d.mem a
  pub cursors : (d'.screen_x ≡ d.screen_x) × (d'.screen_y ≡ d.screen_y)

pub SameScreens-refl : (d : Display) → SameScreens d d
SameScreens-refl d = record { pages = λ a lo hi. refl; cursors = (refl, refl) }

pub SameScreens-trans :
    (d d1 d2 : Display) → SameScreens d d1 → SameScreens d1 d2 → SameScreens d d2
SameScreens-trans d d1 d2 e f = record {
  pages = λ a lo hi. f.pages a lo hi ∙ e.pages a lo hi;
  cursors = (f.cursors.0 ∙ e.cursors.0, f.cursors.1 ∙ e.cursors.1);
}

-- A tab is shown as a space.
unfoldable pub glyph : ℕ → ℕ
glyph c = if c == b'\t' then b' ' else c

-- The second display is reached from the first by putting the characters, one after another and no
-- others, on the screen of terminal `own`, while terminal `cur` is in view. In between, memory may change
-- outside the video pages.
module _ (cur own : ℕ) where
  unfoldable pub Shows : List ℕ → Display → Display → Type 0
  Shows [] d d' = SameScreens d d'
  Shows (c ∷ cs) d d' =
      (d1 : Display) × SameScreens d d1 × Shows cs (putc_on cur own false (glyph c) d1) d'

  pub Shows-after :
      (cs : List ℕ) (d d1 d' : Display) → SameScreens d d1 → Shows cs d1 d' → Shows cs d d'
  unfolding Shows
  Shows-after [] d d1 d' e s = SameScreens-trans d d1 d' e s
  Shows-after (c ∷ cs) d d1 d' e (d2, f, s) = (d2, SameScreens-trans d d1 d2 e f, s)

  pub Shows-append :
      (cs more : List ℕ) (d d1 d' : Display)
      → Shows cs d d1
      → Shows more d1 d'
      → Shows (cs ++ more) d d'
  unfolding Shows
  Shows-append [] more d d1 d' e s = Shows-after more d d1 d' e s
  Shows-append (c ∷ cs) more d d1 d' (d2, f, s) t =
      (d2, f, Shows-append cs more (putc_on cur own false (glyph c) d2) d1 d' s t)

  pub Shows-then :
      (cs : List ℕ) (d d1 d' : Display) → Shows cs d d1 → SameScreens d1 d' → Shows cs d d'
  unfolding Shows
  Shows-then [] d d1 d' e f = SameScreens-trans d d1 d' e f
  Shows-then (c ∷ cs) d d1 d' (d2, e, s) f =
      (d2, e, Shows-then cs (putc_on cur own false (glyph c) d2) d1 d' s f)
