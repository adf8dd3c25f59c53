-- ===== src/Strings/Splitting.antt =====
-- Texts joined with commas, and split again.
use Prim.Native.Char.{code}
use travel_mcp.Prelude.{ℕ, ◌≡◌, refl, ap, String, false, ◌==◌, All, List, [], ◌∷◌}
use travel_mcp.Strings.{◌<>◌, add_char, split_on, join_comma}

-- The text has no character of that code.
unfoldable pub Lacks : ℕ → String → Type 0
Lacks sep String.[] = Unit
Lacks sep (String.◌∷◌ c s) = ((code c == sep) ≡ false) × Lacks sep s

pub split_on_alone : (sep : ℕ) (w : String) → Lacks sep w → split_on sep w ≡ w ∷ []
unfolding split_on add_char Lacks
split_on_alone sep String.[] h = refl
split_on_alone sep (String.◌∷◌ c w) (n, h) = rw (n, split_on_alone sep w h) refl

-- A part without the separator stays together.
pub split_on_part :
    (sep : ℕ) (w s : String) (vs : List String)
    → Lacks sep w
    → split_on sep s ≡ "" ∷ vs
    → split_on sep (w <> s) ≡ w ∷ vs
unfolding split_on add_char Lacks ◌<>◌
split_on_part sep String.[] s vs h e = e
split_on_part sep (String.◌∷◌ c w) s vs (n, h) e = rw (n, split_on_part sep w s vs h e) refl

-- Splitting at the commas gives back what was joined with commas, if no part has a comma.
pub split_on-join_comma :
    (p : String) (ps : List String)
    → All (Lacks 44) (p ∷ ps)
    → split_on 44 (join_comma (p ∷ ps)) ≡ p ∷ ps
unfolding split_on join_comma Lacks ◌<>◌
split_on-join_comma p [] (h, _) = split_on_alone 44 p h
split_on-join_comma p (q ∷ ps) (h, hs) =
    split_on_part 44 p ("," <> join_comma (q ∷ ps)) (q ∷ ps) h (after (split_on-join_comma q ps hs))
  where
    after :
        split_on 44 (join_comma (q ∷ ps)) ≡ q ∷ ps
        → split_on 44 ("," <> join_comma (q ∷ ps)) ≡ "" ∷ q ∷ ps
    after e = ap (λ ws. "" ∷ ws) e
